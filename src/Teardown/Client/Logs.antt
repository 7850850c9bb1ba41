-- ===== src/Teardown/Client/Logs.antt =====
-- Which requests a computation sends: some of a script, in the script's order.
use herdr_distributed_mesh.Prelude.{
  ℕ, ◌+◌, ◌≤◌, ◌≡◌, refl, sym, ap, ◌∙◌, Bool, true, false, List, [], ◌∷◌, ◌++◌, arith,
  if◌then◌else◌,
}
use herdr_distributed_mesh.Teardown.Client.{
  Method, get, post, delete, Request, Client, Network, Context, request,
}

-- The left list is the right one with some elements left out.
pub data Sublist : List Request → List Request → Type 0 where
  nothing : Sublist [] []
  sent_too :
      {r : Request} {rs script : List Request} → Sublist rs script → Sublist (r ∷ rs) (r ∷ script)
  left_out : {r : Request} {rs script : List Request} → Sublist rs script → Sublist rs (r ∷ script)

pub Sublist-none : (script : List Request) → Sublist [] script
Sublist-none [] = nothing
Sublist-none (r ∷ script) = left_out (Sublist-none script)

pub Sublist-append :
    {rs script rs' script' : List Request}
    → Sublist rs script
    → Sublist rs' script'
    → Sublist (rs ++ rs') (script ++ script')
Sublist-append nothing t = t
Sublist-append (sent_too s) t = sent_too (Sublist-append s t)
Sublist-append (left_out s) t = left_out (Sublist-append s t)

abbrev pub is_write : Method → ℕ
is_write get = 0
is_write post = 1
is_write delete = 1

-- The requests that change something.
unfoldable pub writes : List Request → ℕ
writes [] = 0
writes (r ∷ rs) = is_write r.method + writes rs

pub writes-append : (rs rs' : List Request) → writes (rs ++ rs') ≡ writes rs + writes rs'
unfolding writes
writes-append [] rs' = omega arith
writes-append (r ∷ rs) rs' = omega (arith, writes-append rs rs')

pub Sublist-writes : {rs script : List Request} → Sublist rs script → writes rs ≤ writes script
unfolding writes
Sublist-writes nothing = omega arith
Sublist-writes (sent_too s) = omega (arith, Sublist-writes s)
Sublist-writes (left_out s) = omega (arith, Sublist-writes s)

append-[] : (rs : List Request) → rs ++ [] ≡ rs
append-[] [] = refl
append-[] (r ∷ rs) = ap (r ∷◌) (append-[] rs)

append_assoc : (a b c : List Request) → (a ++ b) ++ c ≡ a ++ (b ++ c)
append_assoc [] b c = refl
append_assoc (r ∷ a) b c = ap (r ∷◌) (append_assoc a b c)

module _ {W : Type 0} where
  pub record Sends (script : List Request) (c c' : Client W) : Type 0 where
    pub log : List Request
    pub logged : c'.sent ≡ c.sent ++ log
    pub scripted : Sublist log script

  pub Sends-nothing : (script : List Request) (c : Client W) → Sends script c c
  Sends-nothing script c = record {
    log = [];
    logged = sym (append-[] c.sent);
    scripted = Sublist-none script;
  }

  pub Sends-trans :
      {script script' : List Request} {a b c : Client W}
      → Sends script a b
      → Sends script' b c
      → Sends (script ++ script') a c
  Sends-trans {a = a} s t = record {
    log = s.log ++ t.log;
    logged = t.logged ∙ ap (◌++ t.log) s.logged ∙ append_assoc a.sent s.log t.log;
    scripted = Sublist-append s.scripted t.scripted;
  }

  pub Sends-writes :
      {script : List Request} {c c' : Client W}
      → Sends script c c'
      → writes c'.sent ≤ writes c.sent + writes script
  Sends-writes {c = c} s =
      rw (s.logged, writes-append c.sent s.log) (omega (arith, Sublist-writes s.scripted))

  pub Sends-same_writes :
      {script : List Request} {c c' : Client W}
      → Sends script c c'
      → writes script ≡ 0
      → writes c'.sent ≡ writes c.sent
  Sends-same_writes {c = c} s reads =
      rw (s.logged, writes-append c.sent s.log) (omega (arith, Sublist-writes s.scripted, reads))

  pub Sends-if {ℓ} :
      {script : List Request} {c : Client W} {A : Type ℓ} (b : Bool) (x y : A × Client W)
      → Sends script c x.1
      → Sends script c y.1
      → Sends script c (if b then x else y).1
  Sends-if true x y s t = s
  Sends-if false x y s t = t

  -- The same choice between two scripts.
  pub Sends-choice {ℓ} :
      {script script' : List Request} {c : Client W} {A : Type ℓ} (b : Bool) (x y : A × Client W)
      → Sends script c x.1
      → Sends script' c y.1
      → Sends (if b then script else script') c (if b then x else y).1
  Sends-choice true x y s t = s
  Sends-choice false x y s t = t

  pub request-Sends :
      (net : Network W) (ctx : Context W) (r : Request) (limit : ℕ) (c : Client W)
      → Sends (r ∷ []) c (request net ctx r limit c).1
  unfolding request
  request-Sends net ctx r limit c = Sends-if (ctx c.world) _ _ (Sends-nothing _ c) (
      Sends-if c.closed _ _ (Sends-nothing _ c)
        (record { log = r ∷ []; logged = refl; scripted = sent_too nothing }))
