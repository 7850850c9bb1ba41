-- ===== src/Journal/Evolution.antt =====
-- How a record may change over its life: the relation that every write of the journal keeps.
use mathlib.Core.List.{append_assoc, append-nil}
use herdr_distributed_mesh.Prelude.{
  nat_eq, string_eq, ◌≡◌, ◌≢◌, refl, sym, ap, ◌∙◌, Bool, true, false, Option, none, some, List, [],
  ◌∷◌, ◌++◌, ◌==◌, ==→≡, arith, is_none, &&-split, String,
}
use herdr_distributed_mesh.Errors.{ok, guard-eq-ok, command_conflict}
use herdr_distributed_mesh.Protocol.Messages.{
  status_eq, stage_eq, receipt_eq, CommandStatus, accepted, succeeded, failed, timed_out, rejected,
  unavailable, Timestamp, AgentLifecycleStage, AgentLifecycleReceipt, Command, CommandRecord, Wire,
}
use herdr_distributed_mesh.Protocol.Lifecycle.Advance.{
  keeps_stages, extends_receipt, validate_lifecycle_advance,
}
use herdr_distributed_mesh.Journal.Outcomes.{valid_command_transition}
use herdr_distributed_mesh.Journal.Store.{advance_record, audit_event}
use herdr_distributed_mesh.Journal.Store.Completion.{merged_receipt}

-- A status that no later event may change.
abbrev pub is_conclusive : CommandStatus → Bool
is_conclusive succeeded = true
is_conclusive failed = true
is_conclusive timed_out = true
is_conclusive rejected = true
is_conclusive unavailable = true
is_conclusive _ = false

-- One list begins the other.
abbrev pub Begins {ℓ} : {A : Type ℓ} → List A → List A → Type ℓ
Begins {A = A} xs ys = (rest : List A) × (ys ≡ xs ++ rest)

-- Evidence that a receipt holds is held by the later receipt.
abbrev pub EvidenceKept : Option AgentLifecycleReceipt → Option AgentLifecycleReceipt → Type 0
EvidenceKept none b = Unit
EvidenceKept (some r) none = ⊥
EvidenceKept (some r) (some r') = Begins r.stages r'.stages

pub record Evolves (a b : CommandRecord) : Type 0 where
  pub command : b.command ≡ a.command
  pub created : b.created_at ≡ a.created_at
  pub history : Begins a.audit b.audit
  pub evidence : EvidenceKept a.agent_lifecycle b.agent_lifecycle
  pub final : is_conclusive a.status ≡ true → b ≡ a
  pub never_back : a.status ≢ accepted → b.status ≢ accepted

pub Begins-refl {ℓ} : {A : Type ℓ} (xs : List A) → Begins xs xs
Begins-refl xs = ([], sym (append-nil xs))

Begins-trans {ℓ} : {A : Type ℓ} (xs ys zs : List A) → Begins xs ys → Begins ys zs → Begins xs zs
Begins-trans xs ys zs (r, p) (q, e) = (r ++ q, e ∙ ap (λ l. l ++ q) p ∙ append_assoc xs r q)

pub EvidenceKept-refl : (a : Option AgentLifecycleReceipt) → EvidenceKept a a
EvidenceKept-refl none = tt
EvidenceKept-refl (some r) = Begins-refl r.stages

EvidenceKept-trans :
    (a b c : Option AgentLifecycleReceipt) → EvidenceKept a b → EvidenceKept b c → EvidenceKept a c
EvidenceKept-trans none b c h k = tt
EvidenceKept-trans (some a) none c h k = absurd h
EvidenceKept-trans (some a) (some b) none h k = k
EvidenceKept-trans (some a) (some b) (some c) h k = Begins-trans a.stages b.stages c.stages h k

pub Evolves-refl : (a : CommandRecord) → Evolves a a
Evolves-refl a = record {
  command = refl;
  created = refl;
  history = Begins-refl a.audit;
  evidence = EvidenceKept-refl a.agent_lifecycle;
  final = λ _. refl;
  never_back = λ h. h;
}

pub Evolves-trans : {a b c : CommandRecord} → Evolves a b → Evolves b c → Evolves a c
Evolves-trans {a} {b} {c} p q = record {
  command = q.command ∙ p.command;
  created = q.created ∙ p.created;
  history = Begins-trans a.audit b.audit c.audit p.history q.history;
  evidence =
      EvidenceKept-trans a.agent_lifecycle b.agent_lifecycle c.agent_lifecycle p.evidence
        q.evidence;
  final = λ h. let e = p.final h in q.final (rw e h) ∙ e;
  never_back = λ h. q.never_back (p.never_back h);
}

-- A conclusive outcome has no successor, for any kind of command.
pub conclusive_last :
    (kind : String) (from to : CommandStatus) (detail : String)
    → is_conclusive from ≡ true
    → valid_command_transition kind from to detail ≡ false
unfolding valid_command_transition
conclusive_last kind succeeded to detail h = ground arith
conclusive_last kind _ to detail h = ground arith

-- Nothing returns to the admission.
pub accepted_first :
    (kind : String) (from to : CommandStatus) (detail : String)
    → valid_command_transition kind from to detail ≡ true
    → to ≢ accepted
unfolding valid_command_transition
accepted_first kind accepted to detail h = λ e. ground arith
accepted_first kind _ to detail h = λ e. ground arith

keeps_stages-Begins :
    (old next : List AgentLifecycleStage) → keeps_stages old next ≡ true → Begins old next
unfolding keeps_stages
keeps_stages-Begins [] next h = (next, refl)
keeps_stages-Begins (e ∷ old) [] h = cc
keeps_stages-Begins (e ∷ old) (e' ∷ next) h =
    let (same, more) = &&-split (e == e') (keeps_stages old next) h in
    let (rest, p) = keeps_stages-Begins old next more in (rest, cc (p, ==→≡ e e' same))

pub advance-EvidenceKept :
    (wire : Wire) (old : Option AgentLifecycleReceipt) (next : AgentLifecycleReceipt) (c : Command)
    → validate_lifecycle_advance wire old next c ≡ true
    → EvidenceKept old (some next)
unfolding validate_lifecycle_advance
advance-EvidenceKept wire none next c h = tt
advance-EvidenceKept wire (some old) next c h =
    keeps_stages-Begins old.stages next.stages (unfold extends_receipt in ground arith)

kept_none : (o merged : Option AgentLifecycleReceipt) → is_none o ≡ true → EvidenceKept o merged
kept_none none merged h = tt
kept_none (some r) merged h = cc

-- The receipt that a result leaves behind extends the one before it.
pub merged-EvidenceKept :
    (wire : Wire) (reported merged : Option AgentLifecycleReceipt) (r : CommandRecord)
    → merged_receipt wire reported r ≡ ok merged
    → EvidenceKept r.agent_lifecycle merged
unfolding merged_receipt
merged-EvidenceKept wire none merged r h =
    kept_none r.agent_lifecycle merged
      (guard-eq-ok (is_none r.agent_lifecycle) command_conflict (ok none) h).0
merged-EvidenceKept wire (some next) merged r h =
    let valid = validate_lifecycle_advance wire r.agent_lifecycle next r.command in
    let (v, e) = guard-eq-ok valid command_conflict (ok (some next)) h in
    let same : merged ≡ some next = cc (e) in
    rw same (advance-EvidenceKept wire r.agent_lifecycle next r.command v)

-- `base` is the record that was read; `r` is it with the data of a result put in.
pub record SameHistory (base r : CommandRecord) : Type 0 where
  pub command : r.command ≡ base.command
  pub created : r.created_at ≡ base.created_at
  pub audit : r.audit ≡ base.audit
  pub status : r.status ≡ base.status
  pub evidence : EvidenceKept base.agent_lifecycle r.agent_lifecycle

pub SameHistory-refl : (r : CommandRecord) → SameHistory r r
SameHistory-refl r = record {
  command = refl;
  created = refl;
  audit = refl;
  status = refl;
  evidence = EvidenceKept-refl r.agent_lifecycle;
}

pub advance-Evolves :
    (base r : CommandRecord) (status : CommandStatus) (detail : String) (stamp : Timestamp)
    → SameHistory base r
    → valid_command_transition r.command.command_type r.status status detail ≡ true
    → Evolves base (advance_record r status detail stamp)
unfolding advance_record
advance-Evolves base r status detail stamp same valid = record {
  command = same.command;
  created = same.created;
  history =
      let event = audit_event status detail stamp in
      (event ∷ [], ap (λ l. l ++ event ∷ []) same.audit);
  evidence = same.evidence;
  final = λ h.
      let none_after =
        conclusive_last r.command.command_type r.status status detail (rw same.status h) in
      cc (none_after, valid);
  never_back = λ h. accepted_first r.command.command_type r.status status detail valid;
}
