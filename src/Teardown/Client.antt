-- ===== src/Teardown/Client.antt =====
-- The client of deinitnet/client.go: one bounded exchange at a time, and the deletion of a device.
-- The network is a parameter. A call's context says, for each state of the world, whether it is
-- done. `sent` logs the requests that reached http.Client.Do. The token and the headers that do not
-- depend on the call are left out, and a request that cannot be constructed is: its path is a
-- constant and a validated name.
pub mod Logs
pub mod Deleting
use herdr_distributed_mesh.Prelude.{
  nat_eq, string_eq, ℕ, String, Bool, true, false, ◌&&◌, ◌||◌, not, Option, none, some, List, [],
  ◌∷◌, ◌++◌, ◌==◌, ◌!=◌, if◌then◌else◌, length, codes, leb, contains, is_digit, is_alnum, matches,
  matches_head, nat_beq, joined,
}
use herdr_distributed_mesh.Teardown.Failures.{
  Answer, failed, answer, Failure, device_absent, outcome_unknown, client_closed, cancelled,
  invalid_argument, unread, http_error,
}

pub data Method : Type 0 where
  get post delete : Method

pub record Request : Type 0 where
  pub method : Method
  pub path : String
  pub body : Option String
  pub if_match : String

-- What http.Client.Do and the reading of the body give: a body that could not be read is `none`.
pub data Exchange : Type 0 where
  no_response : Exchange
  replied : ℕ → String → Option String → Exchange

pub record Response : Type 0 where
  pub status : ℕ
  pub etag : String
  pub body : String

-- ctx.Err() != nil
abbrev pub Context : Type 0 → Type 0
Context W = W → Bool

pub record Client (W : Type 0) : Type 0 where
  pub identity : ℕ
  pub closed : Bool
  pub world : W
  pub sent : List Request

unfoldable pub close : {W : Type 0} → Client W → Client W
close c = record c { closed = true }

-- The transport, and json.Unmarshal into a Device, which gives its two ids.
pub record Network (W : Type 0) : Type 0 where
  pub send : Request → W → Exchange × W
  pub unmarshal_device : String → Option (String × String)

-- maxDeviceBytes
abbrev pub max_device_bytes : ℕ
max_device_bytes = 65536

unfoldable pub read_response : ℕ → Exchange → Answer Response
read_response limit no_response = failed unread
read_response limit (replied status etag body) =
    if not (status == 200 || status == 204)
    then answer (record { status = status; etag = etag; body = "" })
    else elim body [
      | none ↦ failed unread
      | some text ↦
          if leb (length (codes text)) limit
          then answer (record { status = status; etag = etag; body = text })
          else failed unread
    ]

unfoldable pub definite_rejection : ℕ → Bool
definite_rejection status =
    contains
      (400 ∷ 401 ∷ 402 ∷ 403 ∷ 404 ∷ 405 ∷ 409 ∷ 411 ∷ 412 ∷ 413 ∷ 414 ∷ 415 ∷ 422 ∷ 429 ∷ [])
      status

-- ^(?:[0-9]{1,32}|n[A-Za-z0-9]{1,127})$
unfoldable pub device_id : String → Bool
device_id s = matches is_digit 1 32 (codes s) || is_stable (codes s)
  where
    is_stable : List ℕ → Bool
    is_stable [] = false
    is_stable (c ∷ cs) = nat_beq c b'n' && matches is_alnum 1 127 cs

-- DeleteResult
pub data DeleteResult : Type 0 where
  deleted already_absent reconciled : DeleteResult

module _ {W : Type 0} (net : Network W) where
  unfoldable pub request : Context W → Request → ℕ → Client W → Answer Response × Client W
  request ctx r limit c =
      if ctx c.world
      then (failed cancelled, c)
      else if c.closed
      then (failed client_closed, c)
      else let (reply, world') = net.send r c.world in
        (read_response limit reply, record c { world = world'; sent = c.sent ++ r ∷ [] })

  abbrev pub device_request : Method → String → Request
  device_request method id = record {
    method = method;
    path = joined "/device/" id;
    body = none;
    if_match = "";
  }

  -- What GetDevice makes of the response.
  unfoldable pub verify_device : String → Answer Response → Answer (String × String)
  verify_device id (failed e) = failed e
  verify_device id (answer r) =
      if r.status == 404
      then failed device_absent
      else if r.status != 200
      then failed (http_error r.status)
      else elim (net.unmarshal_device r.body) [
        | none ↦ failed unread
        | some (a, b) ↦ if a != id && b != id then failed unread else answer (a, b)
      ]

  unfoldable pub get_device : Context W → String → Client W → Answer (String × String) × Client W
  get_device ctx id c =
      if not (device_id id)
      then (failed invalid_argument, c)
      else let (r, c') = request ctx (device_request get id) max_device_bytes c in
        (verify_device id r, c')

  -- What the reply to DELETE settles. `none` is an uncertain outcome.
  unfoldable pub delete_reply : Answer Response → Option (Answer DeleteResult)
  delete_reply (answer r) =
      if r.status == 200 || r.status == 204
      then some (answer deleted)
      else if definite_rejection r.status && r.status != 404
      then some (failed (http_error r.status))
      else none
  delete_reply (failed client_closed) = some (failed client_closed)
  delete_reply (failed e) = none

  unfoldable pub absence : Answer (String × String) → Answer DeleteResult
  absence (failed device_absent) = answer reconciled
  absence _ = failed outcome_unknown

  -- What follows the DELETE: at most one exact GET.
  unfoldable pub confirm_delete :
      Context W → String → Option (Answer DeleteResult) → Client W → Answer DeleteResult × Client W
  confirm_delete ctx id (some result) c = (result, c)
  confirm_delete ctx id none c = let (check, c') = get_device ctx id c in (absence check, c')

  unfoldable pub send_delete : Context W → String → Client W → Answer DeleteResult × Client W
  send_delete ctx id c =
      if ctx c.world
      then (failed cancelled, c)
      else let (r, c') = request ctx (device_request delete id) max_device_bytes c in
        confirm_delete ctx id (delete_reply r) c'

  -- What follows the first GET.
  unfoldable pub after_get :
      Context W → String → Answer (String × String) → Client W → Answer DeleteResult × Client W
  after_get ctx id (failed device_absent) c = (answer already_absent, c)
  after_get ctx id (failed e) c = (failed e, c)
  after_get ctx id (answer device) c = send_delete ctx id c

  unfoldable pub delete_device : Context W → String → Client W → Answer DeleteResult × Client W
  delete_device ctx id c = let (device, c') = get_device ctx id c in after_get ctx id device c'
