-- ===== src/Journal/Growth.antt =====
-- The methods of the journal, one call at a time, against the relation between records.
use herdr_distributed_mesh.Prelude.{
  nat_eq, string_eq, ℕ, ◌≡◌, ◌≢◌, refl, Bool, true, false, ◌||◌, Option, none, some, ◌==◌, ◌!=◌,
  inl, inr, Bool-cases, String, leb,
}
use herdr_distributed_mesh.Errors.{Result, ok, Result-cases, ◌>>=◌, transaction}
use herdr_distributed_mesh.Errors.Ensures.{
  Ensures, Ensures-ok, Ensures-guard, Ensures-bind, ensures_rules,
}
use herdr_distributed_mesh.Protocol.Messages.{
  status_eq, result_eq, CommandStatus, accepted, running, CommandResult, CommandRecord, Wire,
  AgentLifecycleReceipt, indeterminate,
}
use herdr_distributed_mesh.Journal.Records.{record_result, time_of}
use herdr_distributed_mesh.Journal.Store.{Db, read_command, with_id, transition_command}
use herdr_distributed_mesh.Journal.Store.Operations.{mark, reject_body, dispatch_body}
use herdr_distributed_mesh.Journal.Store.Completion.{
  finish_lifecycle_record, finish_ordinary, with_data, is_active, finish_body, CommandProgress,
  is_delayed, advances, keeps_uncertainty, progress_body,
}
use herdr_distributed_mesh.Protocol.Lifecycle.{is_lifecycle_command}
use herdr_distributed_mesh.Journal.Evolution.{
  Evolves, EvidenceKept, Begins-refl, advance-EvidenceKept, SameHistory, SameHistory-refl,
  EvidenceKept-refl, merged-EvidenceKept, is_conclusive,
}
use herdr_distributed_mesh.Journal.Steps.{
  Holds, Grows, Grows-refl, read_command-Holds, write_record-Grows, transition-Grows,
}

-- The tables that a body leaves have grown.
abbrev pub Growing {ℓ} : {A : Type ℓ} → Wire → Db → Result (A × Db) → Type ℓ
Growing wire db m = Ensures m (λ x. Grows wire db x.1)

-- A transaction grows the tables if its body does, since an error leaves them alone.
pub transaction-Grows {ℓ} :
    {A : Type ℓ} (wire : Wire) (body : Db → Result (A × Db)) (db : Db)
    → Growing wire db (body db)
    → Grows wire db (transaction body db).1
unfolding transaction
transaction-Grows wire body db grows = elim (Result-cases (body db)) [
  | inl (x, e) ↦ rw e (grows.at x e)
  | inr (e, h) ↦ rw h (Grows-refl wire db)
]

transition-Growing :
    (wire : Wire) (base r : CommandRecord) (status : CommandStatus) (detail : String) (now : ℕ)
    (db : Db)
    → Holds db base
    → SameHistory base r
    → Growing wire db (transition_command wire r status detail now db)
transition-Growing wire base r status detail now db held same = record {
  at = λ x h. transition-Grows wire base r status detail now db held same h;
}

read-Holds :
    (wire : Wire) (id : String) (db : Db) (r : CommandRecord)
    → read_command wire (with_id id) db ≡ ok r
    → Holds db r
read-Holds wire id db r h = (read_command-Holds wire id db h).0

ruleset growth_rules = (ensures_rules, transition-Growing, read-Holds, SameHistory-refl, Grows-refl)

pub reject_body-Grows :
    (wire : Wire) (node id detail : String) (now : ℕ) (db : Db)
    → Growing wire db (reject_body wire node id detail now db)
unfolding reject_body
reject_body-Grows wire node id detail now db = Ensures-bind _ _ λ r read. Ensures-guard _ _ _ λ _.
    Ensures-guard _ _ _ λ _. elim (Bool-cases (r.status == accepted)) [
      | inl pending ↦ rw pending (search growth_rules)
      | inr other ↦ rw other (search growth_rules)
    ]

pub dispatch_body-Grows :
    (wire : Wire) (node id : String) (now : ℕ) (db : Db)
    → Growing wire db (dispatch_body wire node id now db)
unfolding dispatch_body
dispatch_body-Grows wire node id now db = Ensures-bind _ _ λ r read. Ensures-guard _ _ _ λ _.
    elim (Bool-cases (r.status == accepted)) [
      | inl pending ↦ rw pending (elim (Bool-cases (leb (time_of r.command.expires_at) now)) [
        | inl late ↦ rw late (marked false r _ _ (read-Holds wire id db r read))
        | inr early ↦ rw early (marked true r _ _ (read-Holds wire id db r read))
      ])
      | inr other ↦ rw other (search growth_rules)
    ]
  where
    marked :
        (b : Bool) (r : CommandRecord) (status : CommandStatus) (detail : String)
        → Holds db r
        → Growing wire db (transition_command wire r status detail now db >>= (λ t. ok (mark b t)))
    marked b r status detail held = Ensures-bind _ _ λ t h.
        Ensures-ok (mark b t)
          (transition-Grows wire r r status detail now db held (SameHistory-refl r) h)

-- Evidence alone, put into the record of an open command.
evidence-Evolves :
    (r : CommandRecord) (receipt : Option AgentLifecycleReceipt)
    → is_active r.status ≡ true
    → EvidenceKept r.agent_lifecycle receipt
    → Evolves r (record r { agent_lifecycle = receipt })
evidence-Evolves r receipt active kept = record {
  command = refl;
  created = refl;
  history = Begins-refl r.audit;
  evidence = kept;
  final = λ h. absurd (open_ended r.status active h);
  never_back = λ h. h;
}
  where
    open_ended : (s : CommandStatus) → is_active s ≡ true → is_conclusive s ≢ true
    open_ended running a = λ e. cc (e)
    open_ended indeterminate a = λ e. cc (e)
    open_ended _ a = cc (a)

pub finish_lifecycle-Grows :
    (wire : Wire) (r : CommandRecord) (result : CommandResult) (now : ℕ) (db : Db)
    → Holds db r
    → Growing wire db (finish_lifecycle_record wire r result now db)
unfolding finish_lifecycle_record
finish_lifecycle-Grows wire r result now db held = elim (Bool-cases (record_result r == result)) [
  | inl same ↦ rw same (search growth_rules)
  | inr other ↦ rw other (
      Ensures-guard _ _ _ λ active. Ensures-bind _ _ λ receipt merged.
        let kept = merged-EvidenceKept wire result.agent_lifecycle receipt r merged in
        elim (Bool-cases (r.status != result.status || r.detail != result.detail)) [
          | inl moved ↦ rw moved (
              transition-Growing wire r (record r { agent_lifecycle = receipt }) result.status
                result.detail now db held
                (record {
                  command = refl;
                  created = refl;
                  audit = refl;
                  status = refl;
                  evidence = kept;
                }))
          | inr stays ↦ rw stays (
              Ensures-bind _ _ λ u checked. Ensures-ok _ (
                write_record-Grows wire db r _ held (evidence-Evolves r receipt active kept)
                  checked))
        ])
]

pub finish_ordinary-Grows :
    (wire : Wire) (r : CommandRecord) (result : CommandResult) (now : ℕ) (db : Db)
    → Holds db r
    → Growing wire db (finish_ordinary wire r result now db)
unfolding finish_ordinary with_data
finish_ordinary-Grows wire r result now db held =
    elim (Bool-cases (keeps_uncertainty r result || record_result r == result)) [
      | inl same ↦ rw same (search growth_rules)
      | inr other ↦ rw other (
          Ensures-guard _ _ _ λ active.
            transition-Growing wire r (with_data r result) result.status result.detail now db held
              (record {
                command = refl;
                created = refl;
                audit = refl;
                status = refl;
                evidence = EvidenceKept-refl r.agent_lifecycle;
              }))
    ]

pub finish_body-Grows :
    (wire : Wire) (node stable : String) (result : CommandResult) (now : ℕ) (db : Db)
    → Growing wire db (finish_body wire node stable result now db)
unfolding finish_body
finish_body-Grows wire node stable result now db = Ensures-bind _ _ λ r read.
    let held = read-Holds wire result.command_id db r read in
    Ensures-guard _ _ _ λ _. Ensures-guard _ _ _ λ _.
      elim (Bool-cases (is_lifecycle_command r.command.command_type)) [
        | inl native ↦ rw native (finish_lifecycle-Grows wire r result now db held)
        | inr plain ↦ rw plain (finish_ordinary-Grows wire r result now db held)
      ]

advances-EvidenceKept :
    (wire : Wire) (old next : Option AgentLifecycleReceipt) (r : CommandRecord)
    → advances wire old next r ≡ true
    → EvidenceKept old next
advances-EvidenceKept wire old none r h = cc
advances-EvidenceKept wire old (some next) r h = advance-EvidenceKept wire old next r.command h

pub progress_body-Grows :
    (wire : Wire) (node : String) (progress : CommandProgress) (db : Db)
    → Growing wire db (progress_body wire node progress db)
unfolding progress_body
progress_body-Grows wire node progress db = Ensures-bind _ _ λ r read.
    let held = read-Holds wire progress.command_id db r read in
    Ensures-guard _ _ _ λ _.
      elim (Bool-cases (is_delayed r.agent_lifecycle progress.agent_lifecycle)) [
        | inl late ↦ rw late (Ensures-guard _ _ _ λ _. Ensures-ok _ (Grows-refl wire db))
        | inr news ↦ rw news (
            Ensures-guard _ _ _ λ active. Ensures-guard _ _ _ λ valid. Ensures-bind _ _ λ u checked.
              Ensures-ok _ (
                write_record-Grows wire db r _ held
                  (evidence-Evolves r progress.agent_lifecycle active
                    (advances-EvidenceKept wire r.agent_lifecycle progress.agent_lifecycle r valid))
                  checked))
      ]
