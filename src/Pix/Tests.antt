-- ===== src/Pix/Tests.antt =====
-- Runs of the payment flow on a small database, and the theorems at inputs that meet their
-- hypotheses.
use biocodetechpay.Prelude.{ℕ, ◌+◌, ◌≡◌, refl, pos, ◌+ℤ◌, ◌-ℤ◌, none, some, codes}
use biocodetechpay.Store.{sent, find_user, set_balance}
use biocodetechpay.Store.Total.{total_balance}
use biocodetechpay.Store.Unique.{UniqueIds}
use biocodetechpay.Fees.{is_pj, calculate_pix_fee, calculate_pix_outbound_fee}
use biocodetechpay.Pix.Outcome.{ok}
use biocodetechpay.Pix.Ledger.{get_available_balance, pending_outbound, create_ledger_entry}
use biocodetechpay.Pix.Transfer.{execute_internal_transfer, find_recipient_user}
use biocodetechpay.Pix.Create.{
  create_pix, create_new, send_now, send_external, pay_external, dispatch,
}
use biocodetechpay.Prelude.{[], ◌∷◌}
use biocodetechpay.Pix.Webhook.{TransferEvent, transfer_event, transfer_updated, done, failed_event}
use biocodetechpay.Pix.Conservation.{create_pix_conserves}
use biocodetechpay.Pix.Solvency.{Covered, send_external-Covered}
use biocodetechpay.Pix.Replay.{create_pix_replay}
use biocodetechpay.Pix.Deferred.{done_debits}
use biocodetechpay.Pix.Events.{failed_releases, first_event_decides, Delivery, deliver, deliver_all}
use biocodetechpay.Antifraud.{validate, analyze}
use biocodetechpay.Pix.Screen.{Clock, screen_antifraud, blocked}
use biocodetechpay.Pix.Samples.{matrix_email, ana, bank, to_bia, abroad, pending_row, in_flight}

sends_abroad : create_pix bank abroad sent ≡ (in_flight, ok pending_row)
unfolding create_pix create_new send_now send_external pay_external dispatch get_available_balance
    create_ledger_entry find_recipient_user calculate_pix_fee calculate_pix_outbound_fee is_pj ◌-ℤ◌
sends_abroad = refl

sends_within : total_balance (create_pix bank to_bia sent).0.users ≡ pos 10500
unfolding create_pix create_new send_now execute_internal_transfer find_recipient_user ◌-ℤ◌ ◌+ℤ◌
sends_within = refl

-- The available balance of ana while her transfer is under way.
available_in_flight : get_available_balance in_flight 1 ≡ ok (pos 3600)
unfolding get_available_balance ◌-ℤ◌
available_in_flight = refl

bank-UniqueIds : UniqueIds bank.users
bank-UniqueIds = (refl, (refl, (refl, tt)))

create_pix_conserves_example :
    total_balance (create_pix bank to_bia sent).0.users ≡ total_balance bank.users
create_pix_conserves_example = create_pix_conserves bank to_bia sent bank-UniqueIds

send_external-Covered_example : Covered bank ana abroad (send_external bank ana abroad)
send_external-Covered_example = send_external-Covered bank ana abroad refl

create_pix_replay_example :
    create_pix in_flight (record to_bia { idempotency_key = codes "k2" }) sent
    ≡ (in_flight, ok pending_row)
create_pix_replay_example =
    create_pix_replay bank in_flight abroad (record to_bia { idempotency_key = codes "k2" }) sent
      sent pending_row sends_abroad refl

done_debits_example :
    let (db', action) = transfer_event matrix_email none 2000 done 20 in_flight in
    (action ≡ transfer_updated)
    × (find_user 1 db' ≡ some (set_balance (pos 10000 -ℤ pos 6400) ana))
    × (pending_outbound db' 1 + 6400 ≡ pending_outbound in_flight 1)
    × (get_available_balance db' 1 ≡ get_available_balance in_flight 1)
done_debits_example =
    done_debits matrix_email none 2000 20 in_flight pending_row ana refl refl refl refl refl

failed_releases_example :
    let (db', action) = transfer_event matrix_email none 2000 failed_event 20 in_flight in
    (action ≡ transfer_updated)
    × (db'.users ≡ in_flight.users)
    × (pending_outbound db' 1 + 6400 ≡ pending_outbound in_flight 1)
failed_releases_example =
    failed_releases matrix_email none 2000 20 in_flight pending_row refl refl refl

abbrev delivery : TransferEvent → ℕ → Delivery
delivery event now = record { event = event; name = none; now = now }

first_event_decides_example :
    deliver_all matrix_email 20
      (delivery failed_event 2000 ∷ delivery done 3000 ∷ delivery failed_event 4000 ∷ [])
      in_flight
    ≡ deliver matrix_email 20 (delivery failed_event 2000) in_flight
first_event_decides_example =
    first_event_decides matrix_email 20 (delivery failed_event 2000)
      (delivery done 3000 ∷ delivery failed_event 4000 ∷ []) in_flight pending_row refl refl

abbrev afternoon : Clock
afternoon = record { now = 90000; hour = 15; minute = 30 }

large_at_night :
    screen_antifraud 30001 1 (record { now = 90000; hour = 23; minute = 0 }) bank ≡ blocked
unfolding screen_antifraud validate analyze
large_at_night = refl
