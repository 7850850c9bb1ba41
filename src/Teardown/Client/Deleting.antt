-- ===== src/Teardown/Client/Deleting.antt =====
-- What DeleteDevice sends, and what it has read of the device when it sends a DELETE.
use herdr_distributed_mesh.Prelude.{
  nat_eq, string_eq, ◌≡◌, ◌≢◌, ◌⊎◌, ap, ◌∙◌, sym, refl, true, false, ◌&&◌, ◌==◌, ◌!=◌, ==→≡,
  if◌then◌else◌, String, not, Option, none, some, List, [], ◌∷◌, inl, inr, arith, Bool-cases,
  Option-cases,
}
use herdr_distributed_mesh.Teardown.Failures.{Answer, failed, answer, device_absent, unread}
use herdr_distributed_mesh.Teardown.Client.{
  get, delete, Request, Response, verify_device, Client, Network, Context, device_request,
  max_device_bytes, get_device, DeleteResult, confirm_delete, send_delete, after_get, delete_device,
  device_id,
}
use herdr_distributed_mesh.Teardown.Client.Logs.{
  Sends, Sends-nothing, Sends-if, Sends-trans, Sends-same_writes, request-Sends, writes,
}

module _ {W : Type 0} (net : Network W) (ctx : Context W) (id : String) where
  abbrev get_script : List Request
  get_script = device_request net get id ∷ []

  get_device-Sends : (c : Client W) → Sends get_script c (get_device net ctx id c).1
  unfolding get_device
  get_device-Sends c =
      Sends-if (not (device_id id)) _ _ (Sends-nothing _ c)
        (request-Sends net ctx (device_request net get id) max_device_bytes c)

  confirm_delete-Sends :
      (result : Option (Answer DeleteResult)) (c : Client W)
      → Sends get_script c (confirm_delete net ctx id result c).1
  unfolding confirm_delete
  confirm_delete-Sends (some result) c = Sends-nothing _ c
  confirm_delete-Sends none c = get_device-Sends c

  abbrev delete_script : List Request
  delete_script = device_request net delete id ∷ get_script

  send_delete-Sends : (c : Client W) → Sends delete_script c (send_delete net ctx id c).1
  unfolding send_delete
  send_delete-Sends c = Sends-if (ctx c.world) _ _ (Sends-nothing _ c) (
      Sends-trans (request-Sends net ctx (device_request net delete id) max_device_bytes c)
        (confirm_delete-Sends _ _))

  after_get-Sends :
      (device : Answer (String × String)) (c : Client W)
      → Sends delete_script c (after_get net ctx id device c).1
  unfolding after_get
  after_get-Sends (failed device_absent) c = Sends-nothing _ c
  after_get-Sends (failed e) c = Sends-nothing _ c
  after_get-Sends (answer device) c = send_delete-Sends c

  -- A device that was not verified is not deleted.
  after_get-unverified :
      (device : Answer (String × String)) (c : Client W)
      → ((found : String × String) × (device ≡ answer found))
        ⊎ ((after_get net ctx id device c).1 ≡ c)
  unfolding after_get
  after_get-unverified (failed device_absent) c = inr refl
  after_get-unverified (failed e) c = inr refl
  after_get-unverified (answer found) c = inl (found, refl)

-- A deletion sends some of three requests, in this order: a GET of the exact device, one DELETE and
-- one confirming GET.
pub delete_device-Sends :
    {W : Type 0} (net : Network W) (ctx : Context W) (id : String) (c : Client W)
    → Sends
        (device_request net get id ∷ device_request net delete id ∷ device_request net get id ∷ [])
        c
        (delete_device net ctx id c).1
unfolding delete_device
delete_device-Sends net ctx id c =
    Sends-trans (get_device-Sends net ctx id c) (after_get-Sends net ctx id _ _)

get-reads :
    {W : Type 0} (net : Network W) (id : String) → writes (device_request net get id ∷ []) ≡ 0
unfolding writes
get-reads net id = omega arith

-- A device that was read for an id, which is a valid one and is one of the device's two ids.
pub record IsDevice (id : String) (found : String × String) : Type 0 where
  valid : device_id id ≡ true
  its : (found.0 ≡ id) ⊎ (found.1 ≡ id)

verify_device-its :
    {W : Type 0} (net : Network W) (id : String) (m : Answer Response) (found : String × String)
    → verify_device net id m ≡ answer found
    → (found.0 ≡ id) ⊎ (found.1 ≡ id)
unfolding verify_device
verify_device-its net id (failed e) found h = cc (h)
verify_device-its net id (answer r) found h = elim (Bool-cases (r.status == 404)) [
  | inl gone ↦ cc (rw (verify_device, gone) at h)
  | inr there ↦ elim (Bool-cases (r.status == 200)) [
    | inr other ↦ cc (rw (verify_device, there, other) at h)
    | inl success ↦ elim (Option-cases (net.unmarshal_device r.body)) [
      | inl broken ↦ cc (rw (verify_device, there, success, broken) at h)
      | inr ((a, b), e) ↦
          either a b (Bool-cases (a == id)) (Bool-cases (b == id))
            (rw (verify_device, there, success, e) at h)
    ]
  ]
]
  where
    either :
        (a b : String)
        → ((a == id) ≡ true) ⊎ ((a == id) ≡ false)
        → ((b == id) ≡ true) ⊎ ((b == id) ≡ false)
        → (if a != id && b != id then failed unread else answer (a, b)) ≡ answer found
        → (found.0 ≡ id) ⊎ (found.1 ≡ id)
    either a b (inl x) q k =
        let e : (a, b) ≡ found = cc (rw x at k) in inl (sym (ap (λ p. p.0) e) ∙ ==→≡ a id x)
    either a b (inr x) (inl y) k =
        let e : (a, b) ≡ found = cc (rw (x, y) at k) in inr (sym (ap (λ p. p.1) e) ∙ ==→≡ b id y)
    either a b (inr x) (inr y) k = cc (rw (x, y) at k)

get_device-IsDevice :
    {W : Type 0} (net : Network W) (ctx : Context W) (id : String) (c : Client W)
    (found : String × String)
    → (get_device net ctx id c).0 ≡ answer found
    → IsDevice id found
unfolding get_device
get_device-IsDevice net ctx id c found h = elim (Bool-cases (device_id id)) [
  | inl valid ↦ record {
    valid = valid;
    its = verify_device-its net id _ found (rw (get_device, valid) at h);
  }
  | inr other ↦ cc (rw (get_device, other) at h)
]

-- A deletion changes something only if its first GET answered a device, and then the id is a valid
-- one and one of the two ids of that device is exactly it.
pub delete_device-verified :
    {W : Type 0} (net : Network W) (ctx : Context W) (id : String) (c : Client W)
    → writes (delete_device net ctx id c).1.sent ≢ writes c.sent
    → (found : String × String) × ((get_device net ctx id c).0 ≡ answer found) × IsDevice id found
unfolding delete_device
delete_device-verified net ctx id c h =
    elim (after_get-unverified net ctx id (get_device net ctx id c).0 (get_device net ctx id c).1) [
      | inl (found, e) ↦ (found, e, get_device-IsDevice net ctx id c found e)
      | inr same ↦ absurd (
          h (
            ap (λ c'. writes c'.sent) same
            ∙ Sends-same_writes (get_device-Sends net ctx id c) (get-reads net id)))
    ]
