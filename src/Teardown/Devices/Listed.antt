-- ===== src/Teardown/Devices/Listed.antt =====
-- The ids of a device list: `id` and `nodeId` of each device, in the order of the list.
use herdr_distributed_mesh.Prelude.{
  nat_eq, string_eq, String, Bool, true, false, not, ◌≡◌, refl, sym, ap, ◌∙◌, subst, Option, none,
  some, List, [], ◌∷◌, ◌++◌, contains, Option-cases, inl, inr, &&-split, if◌then◌else◌,
}
use herdr_distributed_mesh.Teardown.Failures.{failed, answer, Failure, unread, >>=-eq-answer}
use herdr_distributed_mesh.Teardown.Json.{Json, Fields}
use herdr_distributed_mesh.Teardown.Values.{lookup, index, as_object, as_text}
use herdr_distributed_mesh.Teardown.Client.{device_id}
use herdr_distributed_mesh.Teardown.Devices.{
  Ids, read_id, read_field, read_ids, device_role, roles_in_use,
}

abbrev if_text : Option String → List String
if_text none = []
if_text (some id) = id ∷ []

abbrev texts_at : Option Json → List String
texts_at none = []
texts_at (some value) = if_text (as_text value)

abbrev ids_of : Option Fields → List String
ids_of none = []
ids_of (some device) = texts_at (lookup "id" device) ++ texts_at (lookup "nodeId" device)

abbrev pub listed_ids : List Json → List String
listed_ids [] = []
listed_ids (item ∷ items) = ids_of (as_object item) ++ listed_ids items

-- Every id is a valid one that did not come before.
abbrev pub AreNew : List String → List String → Type 0
AreNew seen [] = Unit
AreNew seen (id ∷ ids) = (device_id id ≡ true) × (contains seen id ≡ false) × AreNew (id ∷ seen) ids

abbrev after : List String → List String → List String
after seen [] = seen
after seen (id ∷ ids) = after (id ∷ seen) ids

AreNew-append :
    (seen xs ys : List String) → AreNew seen xs → AreNew (after seen xs) ys → AreNew seen (xs ++ ys)
AreNew-append seen [] ys h k = k
AreNew-append seen (x ∷ xs) ys (valid, new, h) k = (valid, new, AreNew-append (x ∷ seen) xs ys h k)

after-append : (seen xs ys : List String) → after seen (xs ++ ys) ≡ after (after seen xs) ys
after-append seen [] ys = refl
after-append seen (x ∷ xs) ys = after-append (x ∷ seen) xs ys

pub when-answer {ℓ} :
    {A : Type ℓ} (t : Bool) (a b : A) (e : Failure)
    → (if t then answer a else failed e) ≡ answer b
    → (t ≡ true) × (a ≡ b)
when-answer true a b e h = (refl, cc)
when-answer false a b e h = cc (h)

not_seen : (b : Bool) → not b ≡ true → b ≡ false
not_seen true h = cc (h)
not_seen false h = refl

-- A step of the reading leaves these ids behind.
abbrev Reads : List String → List String → List String → Type 0
Reads seen ids seen' = AreNew seen ids × (seen' ≡ after seen ids)

Reads-append :
    (seen seen' seen'' xs ys : List String)
    → Reads seen xs seen'
    → Reads seen' ys seen''
    → Reads seen (xs ++ ys) seen''
Reads-append seen seen' seen'' xs ys (new, e) (new', e') = (
  AreNew-append seen xs ys new (subst (λ s. AreNew s ys) e new'),
  e' ∙ ap (λ s. after s ys) e ∙ sym (after-append seen xs ys),
)

read_field-Reads :
    (retained name : String) (device : Fields) (ids ids' : Ids)
    → read_field retained name device ids ≡ answer ids'
    → Reads ids.seen (texts_at (lookup name device)) ids'.seen
unfolding read_field read_id
read_field-Reads retained name device ids ids' h = elim (Option-cases (lookup name device)) [
  | inl missing ↦
      let same : ids ≡ ids' = cc (rw (read_field, missing) at h) in
      rw missing (tt, sym (ap (λ i. i.seen) same))
  | inr (value, found) ↦ elim (Option-cases (as_text value)) [
    | inl other ↦ cc (rw (read_field, found, read_id, other) at h)
    | inr (id, e) ↦
        let (passed, same) =
          when-answer _ _ ids' unread (rw (read_field, found, read_id, e) at h) in
        let (valid, new) = &&-split _ _ passed in
        let (known, _) = &&-split _ _ valid in
        rw (found, e) ((known, not_seen _ new, tt), sym (ap (λ i. i.seen) same))
  ]
]

read_ids-Reads :
    (retained : String) (device : Fields) (seen : List String) (ids : Ids)
    → read_ids retained device seen ≡ answer ids
    → Reads seen (ids_of (some device)) ids.seen
unfolding read_ids
read_ids-Reads retained device seen ids h =
    let (first, h1, h2) = >>=-eq-answer (read_field retained "id" device _) _ h in
    Reads-append seen first.seen ids.seen (texts_at (lookup "id" device))
      (texts_at (lookup "nodeId" device)) (read_field-Reads retained "id" device _ first h1)
      (read_field-Reads retained "nodeId" device first ids h2)

-- A list that was read to its end has no id twice.
pub roles_in_use-AreNew :
    (items : List Json) (retained : String) (seen : List String) (in_use : Bool)
    → roles_in_use retained seen items ≡ answer in_use
    → AreNew seen (listed_ids items)
unfolding roles_in_use
roles_in_use-AreNew [] retained seen in_use h = tt
roles_in_use-AreNew (item ∷ items) retained seen in_use h = elim (Option-cases (as_object item)) [
  | inl other ↦ cc (rw (roles_in_use, other) at h)
  | inr (device, e) ↦
      let (ids, read, h1) =
        >>=-eq-answer (read_ids retained device seen) _ (rw (roles_in_use, e) at h) in
      let (_, _, h2) = >>=-eq-answer _ _ h1 in
      let (role, roled, h3) = >>=-eq-answer (device_role (index "tags" device)) _ h2 in
      let (others, rest, _) = >>=-eq-answer (roles_in_use retained ids.seen items) _ h3 in
      let (new, left) = read_ids-Reads retained device seen ids read in
      rw e (
        AreNew-append seen (ids_of (some device)) (listed_ids items) new (
          subst (λ s. AreNew s (listed_ids items)) left
            (roles_in_use-AreNew items retained ids.seen others rest)))
]
