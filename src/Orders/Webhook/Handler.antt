-- ===== src/Orders/Webhook/Handler.antt =====
-- `HandleWebhook` of internal/modules/orders/webhook.go: provider events, each applied under its id. The
-- provider and what an event does to the rest of the service are parameters; so are the failures
-- of the database. The stored payload is left out.
use market_place.Prelude.{
  ℕ, suc, Bool, true, false, not, ◌||◌, if◌then◌else◌, Option, none, some, List, [], ◌∷◌, ◌++◌,
  Result, ok, err,
}
use market_place.Bytes.{Bytes, equal}

-- `process_status` of the table `provider_webhook_events`.
pub data ProcessStatus : Type 0 where
  received processed ignored failed replay_detected : ProcessStatus

-- What of `payments.WebhookEvent` the handler itself reads.
pub record Event (D : Type 0) : Type 0 where
  pub event_id : Bytes
  pub event_type : Bytes
  pub detail : D

-- A row of the table, for the one provider.
pub record Row (E : Type 0) : Type 0 where
  pub event_id : Bytes
  pub event_type : Bytes
  pub digest : Bytes
  pub status : ProcessStatus
  pub attempts : ℕ
  pub processed_at : Option ℕ
  pub last_error : Option E

-- What is written to the audit log.
pub data Action : Type 0 where
  signature_rejected : Action
  replay_mismatch : Bytes → Action

pub record World (S E : Type 0) : Type 0 where
  pub rows : List (Row E)
  pub audit : List Action
  pub state : S

-- What `ParseWebhook` returns in place of an event.
pub data ParseError : Type 0 where
  invalid_signature malformed : ParseError

-- `WebhookOutcome`, without its text.
pub record WebhookOutcome : Type 0 where
  pub event_id : Bytes
  pub event_type : Bytes
  pub is_processed : Bool
  pub is_duplicate : Bool
  pub is_mismatch : Bool

pub data WebhookError (E : Type 0) : Type 0 where
  unauthenticated unparseable : WebhookError E
  database : WebhookError E
  not_applied : E → WebhookError E

-- Which statements fail in one delivery.
pub record Faults : Type 0 where
  pub lookup_fails : Bool
  pub insert_fails : Bool
  pub mark_fails : Bool
  pub audit_fails : Bool
  pub commit_fails : Bool
  pub record_fails : Bool

-- What the claiming transaction makes of an event.
pub data Claim : Type 0 where
  mismatched repeated claimed : Claim

abbrev pub is_done : ProcessStatus → Bool
is_done processed = true
is_done ignored = true
is_done _ = false

module _ {E : Type 0} where
  -- `SELECT … WHERE event_id = …`
  unfoldable pub find_row : Bytes → List (Row E) → Option (Row E)
  find_row id [] = none
  find_row id (r ∷ rs) = let rest = find_row id rs in if equal (r.event_id) id then some r else rest

  -- `UPDATE … WHERE event_id = …`
  unfoldable pub update_row : Bytes → (Row E → Row E) → List (Row E) → List (Row E)
  update_row id f [] = []
  update_row id f (r ∷ rs) =
      let rest = update_row id f rs in if equal (r.event_id) id then f r ∷ rest else r ∷ rest

  abbrev pub mark_replay : Row E → Row E
  mark_replay r = record r { status = replay_detected; attempts = suc (r.attempts) }

  abbrev pub finish : (now : ℕ) → ProcessStatus → Option E → Row E → Row E
  finish now s why r = record r {
    status = s;
    attempts = suc (r.attempts);
    processed_at = some now;
    last_error = why;
  }

module _ {R D S E : Type 0} (parse : R → Result ParseError (Event D)) (digest_of : R → Bytes)
    (apply : Event D → S → Result E S) where
  abbrev pub new_row : Event D → Bytes → Row E
  new_row ev digest = record {
    event_id = ev.event_id;
    event_type = ev.event_type;
    digest = digest;
    status = received;
    attempts = 0;
    processed_at = none;
    last_error = none;
  }

  -- The claim, by what the lookup finds.
  unfoldable pub claim_found :
      Faults
      → Event D
      → Bytes
      → World S E
      → Option (Row E)
      → Result (WebhookError E) (Claim × World S E)
  claim_found f ev digest w none =
      if f.insert_fails
      then err database
      else ok (claimed, record w { rows = w.rows ++ (new_row ev digest ∷ []) })
  claim_found f ev digest w (some r) =
      if not (equal (r.digest) digest)
      then (if f.mark_fails
          then err database
          else if f.audit_fails
          then err database
          else ok (
            mismatched,
            record w {
              rows = update_row (ev.event_id) mark_replay (w.rows);
              audit = w.audit ++ (replay_mismatch (ev.event_id) ∷ []);
            },
          ))
      else if is_done (r.status)
      then ok (repeated, w)
      else ok (claimed, w)

  -- The claiming transaction.
  unfoldable pub claim :
      Faults → Event D → Bytes → World S E → Result (WebhookError E) (Claim × World S E)
  claim f ev digest w =
      if f.lookup_fails || f.commit_fails
      then err database
      else claim_found f ev digest w (find_row (ev.event_id) (w.rows))

  abbrev pub outcome : Event D → (is_processed is_duplicate is_mismatch : Bool) → WebhookOutcome
  outcome ev p d m = record {
    event_id = ev.event_id;
    event_type = ev.event_type;
    is_processed = p;
    is_duplicate = d;
    is_mismatch = m;
  }

  -- The bookkeeping behind the event's effect; its failure is only logged.
  abbrev pub book : Faults → (now : ℕ) → Event D → ProcessStatus → Option E → World S E → World S E
  book f now ev s why w =
      if f.record_fails
      then w
      else record w { rows = update_row (ev.event_id) (finish now s why) (w.rows) }

  abbrev pub Answer : Type 0
  Answer = Result (WebhookError E) WebhookOutcome × World S E

  abbrev pub applied : Faults → (now : ℕ) → Event D → World S E → Result E S → Answer
  applied f now ev w (err e) = (err (not_applied e), book f now ev failed (some e) w)
  applied f now ev w (ok s) =
      (ok (outcome ev true false false), book f now ev processed none (record w { state = s }))

  abbrev pub after_claim :
      Faults
      → (now : ℕ) → Event D
      → World S E
      → Result (WebhookError E) (Claim × World S E)
      → Answer
  after_claim f now ev w (err e) = (err e, w)
  after_claim f now ev w (ok (mismatched, w')) = (ok (outcome ev false true true), w')
  after_claim f now ev w (ok (repeated, w')) = (ok (outcome ev true true false), w')
  after_claim f now ev w (ok (claimed, w')) = applied f now ev w' (apply ev (w'.state))

  abbrev pub handle_parsed :
      Faults → (now : ℕ) → R → World S E → Result ParseError (Event D) → Answer
  handle_parsed f now req w (ok ev) = after_claim f now ev w (claim f ev (digest_of req) w)
  handle_parsed f now req w (err malformed) = (err unparseable, w)
  handle_parsed f now req w (err invalid_signature) = (
    err unauthenticated,
    (if f.audit_fails then w else record w { audit = w.audit ++ (signature_rejected ∷ []) }),
  )

  -- `HandleWebhook`
  unfoldable pub handle_webhook : Faults → (now : ℕ) → R → World S E → Answer
  handle_webhook f now req w = handle_parsed f now req w (parse req)

-- A request at a time, with the failures that it meets.
pub record Delivery (R : Type 0) : Type 0 where
  pub faults : Faults
  pub now : ℕ
  pub request : R
