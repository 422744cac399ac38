-- ===== src/Executor/Faults.antt =====
-- How the executor goes on after a failure: a start that fails, a command that fails, a submission
-- whose answer is lost, an incident within an incident.
use bot_trading.Prelude.{
  select, not, ◌||◌, all, ℕ, ◌+◌, String, ◌≡◌, refl, ap, ◌∙◌, Bool, true, false, ◌&&◌, Option, none,
  some, List, [], ◌∷◌, any, length, update_rows, ◌⊎◌, inl, inr, str_eq, arith,
}
use bot_trading.Decimal.{Decimals}
use bot_trading.Risk.Types.{Stamp}
use bot_trading.Exec.{Result, Exec, Exn, ok, err, Result-cases}
use bot_trading.Order.Types.{OrderIntent, BrokerOrder, Position}
use bot_trading.Store.Tables.{Store, Command, CommandStatus}
use bot_trading.Store.Access.{position, audit, pause}
use bot_trading.Store.Booking.{apply_broker_order}
use bot_trading.Risk.Engine.{post_fill_risk}
use bot_trading.Store.Commands.{status_eq, pending_commands, finish_command}
use bot_trading.Executor.World.{Executor, World, acquire, require_started}
use bot_trading.Executor.Orders.{manage_incident, report_incident, check_fill, apply_with}
use bot_trading.Executor.Control.{enter, run_action, process_one, process_all, process_commands}

module _ ⦃dec : Decimals⦄ where
  -- A row of the command still waits.
  abbrev pub waits : String → Store → Bool
  waits id s =
      any (λ (c : Command). str_eq c.command_id id && status_eq c.status CommandStatus.pending)
        s.commands

  finished_rows :
      (id : String) (status : CommandStatus) (rows : List Command)
      → status_eq status CommandStatus.pending ≡ false
      → any
          (λ (c : Command). str_eq c.command_id id && status_eq c.status CommandStatus.pending)
          (update_rows
            (λ (c : Command). str_eq c.command_id id)
            (λ c. record c { status = status })
            rows)
        ≡ false
  finished_rows id status [] h = refl
  finished_rows id status (c ∷ rows) h = ground (arith, finished_rows id status rows h)

  -- Every row of the command has the status.
  abbrev pub has_status : String → CommandStatus → Store → Bool
  has_status id status s =
      all (λ (c : Command). not (str_eq c.command_id id) || status_eq c.status status) s.commands

  given_rows :
      (id : String) (status : CommandStatus) (rows : List Command)
      → status_eq status status ≡ true
      → all
          (λ (c : Command). not (str_eq c.command_id id) || status_eq c.status status)
          (update_rows
            (λ (c : Command). str_eq c.command_id id)
            (λ c. record c { status = status })
            rows)
        ≡ true
  given_rows id status [] h = refl
  given_rows id status (c ∷ rows) h = ground (arith, given_rows id status rows h)

  -- Done when the action reports success, blocked when it reports a failure or raises.
  abbrev pub status_of : Result Bool → CommandStatus
  status_of (ok true) = CommandStatus.done
  status_of _ = CommandStatus.blocked

module _ ⦃dec : Decimals⦄ {B : Type 0} (x : Executor B) where
  -- A command is finished whatever its action does: processing it does not raise, and no row of
  -- the command waits afterwards.
  pub process_one_finishes :
      (c : Command) (w : World B)
      → ((process_one x c w).0 ≡ ok tt) × (waits c.command_id (process_one x c w).1.store ≡ false)
  unfolding process_one finish_command audit
  process_one_finishes c w =
      let after = (run_action x c.kind w).1.store.commands in
      ground (
        arith,
        finished_rows c.command_id CommandStatus.done after refl,
        finished_rows c.command_id CommandStatus.blocked after refl,
      )

  process_one-has_status :
      (c : Command) (w : World B)
      → has_status c.command_id (status_of (run_action x c.kind w).0) (process_one x c w).1.store
        ≡ true
  unfolding process_one finish_command audit
  process_one-has_status c w =
      let after = (run_action x c.kind w).1.store.commands in
      ground (
        arith,
        given_rows c.command_id CommandStatus.done after refl,
        given_rows c.command_id CommandStatus.blocked after refl,
      )

  -- What a loop over commands did: each was processed once, in order, from the world that the
  -- one before left, without raising; no row of it waited then, and its rows had the status that
  -- the answer of its action calls for.
  pub data Worked : List Command → World B → World B → Type 0 where
    finished : {w : World B} → Worked [] w w
    round :
        {w v w' : World B} {c : Command} {l : List Command}
        → process_one x c w ≡ (ok tt, v)
        → waits c.command_id v.store ≡ false
        → has_status c.command_id (status_of (run_action x c.kind w).0) v.store ≡ true
        → Worked l v w'
        → Worked (c ∷ l) w w'

  process_all-Worked :
      (l : List Command) (n : ℕ) (w : World B)
      → ((process_all x n l w).0 ≡ ok (n + length l)) × Worked l w (process_all x n l w).1
  unfolding process_all
  process_all-Worked [] n w = (ground arith, finished)
  process_all-Worked (c ∷ l) n w =
      let (fine, done) = process_one_finishes c w in
      let (counted, rest) = process_all-Worked l (n + 1) (process_one x c w).1 in
      rw fine
        (counted ∙ ap ok (omega arith), round (ground arith) done (process_one-has_status c w) rest)

  process_commands_all :
      (w : World B)
      → w.started ≡ true
      → w.lock_handle ≡ true
      → process_commands x w ≡ process_all x 0 (pending_commands w.store) w
  unfolding process_commands require_started
  process_commands_all w h k = ground arith

  -- A started executor that holds the lock works through its whole queue: every command that
  -- waits at the start is processed once, in the order of the queue, none of them raises whatever
  -- its action does, none waits after its turn, it is then done if its action reported success and
  -- blocked otherwise, and the count that is returned is their number.
  pub process_commands_total :
      (w : World B)
      → w.started ≡ true
      → w.lock_handle ≡ true
      → let waiting =
          select (λ (c : Command). status_eq c.status CommandStatus.pending) w.store.commands in
        ((process_commands x w).0 ≡ ok (length waiting)) × Worked waiting w (process_commands x w).1
  unfolding pending_commands
  process_commands_total w h k =
      let (counted, worked) = process_all-Worked (pending_commands w.store) 0 w in
      rw (process_commands_all w h k) (counted ∙ ap ok (omega arith), worked)

  -- An executor that fails to start either changed nothing, because the lock was held by it or by
  -- another process, or it has given the lock back and is not started.
  pub enter_failed :
      (w w' : World B) {e : Exn}
      → enter x w ≡ (err e, w')
      → ((w' ≡ w) × ((w.lock_handle ≡ true) ⊎ (w.lock_taken ≡ true)))
        ⊎ ((w'.lock_handle ≡ false) × (w'.started ≡ false))
  unfolding enter acquire
  enter_failed w w' h = ground arith

module _ ⦃dec : Decimals⦄ {B : Type 0} (x : Executor B)
    (m m' : Position → Exec (World B) (Unit {0})) where
  report_incident_managing :
      (id : String) (p : Position) (incident : Option String) (w : World B)
      → w.incident_management ≡ true
      → report_incident x m id p incident w ≡ report_incident x m' id p incident w
  unfolding report_incident manage_incident pause audit
  report_incident_managing id p none w h = refl
  report_incident_managing id p (some incident) w h = ground arith

  check_fill_managing :
      (i : OrderIntent) (u : BrokerOrder) (given : Option String) (w : World B)
      → w.incident_management ≡ true
      → check_fill x m i u given w ≡ check_fill x m' i u given w
  unfolding check_fill
  check_fill_managing i u none w h = refl
  check_fill_managing i u (some id) w h = elim (Result-cases (position id w.store).0) [
    | inl (p, e) ↦
        let (_, incident) =
          post_fill_risk x.risk p.units p.average_entry p.stop_price p.planned_risk u.protected in
        ground (
          arith,
          report_incident_managing i.intent_id p incident
              (record w { store = (position id w.store).1 }),
        )
    | inr (e, failed) ↦ ground arith
  ]

  -- While an incident is managed, booking a report does not depend on what managing one would do.
  pub apply_with_managing :
      (u : BrokerOrder) (now : Stamp) (w : World B)
      → w.incident_management ≡ true
      → apply_with x m u now w ≡ apply_with x m' u now w
  unfolding apply_with
  apply_with_managing u now w h = elim (Result-cases (apply_broker_order u now w.store).0) [
    | inl (i, e) ↦ ground (
      arith,
      check_fill_managing i u u.position_id
          (record w { store = (apply_broker_order u now w.store).1 }),
    )
    | inr (e, failed) ↦ ground arith
  ]
