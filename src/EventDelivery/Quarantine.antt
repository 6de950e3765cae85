-- ===== src/EventDelivery/Quarantine.antt =====
-- A message that is put aside or delivered again changes only the dead letters.
use Prim.Native.String
use flight_multi_agent.Base.{ℕ, ◌≡◌, ◌≢◌, String, Option, none, arith}
use flight_multi_agent.Base.Text.{first_code, first_code-cons}
use flight_multi_agent.Base.Table.{Key, Table, get_item, key_eq-apart_pk, get_item-put_item}
use flight_multi_agent.Events.{Payload}
use flight_multi_agent.MonitoringStore.{Item, dead_letter}
use flight_multi_agent.MonitoringStore.Outbox.{put_dead_letter, dead_letter_key}
use flight_multi_agent.EventDelivery.{
  Message, delivery_attempt, quarantine_message, retry_or_quarantine,
}

module _ {F : Type 0} (now : String) (table : Table (Item F)) (consumer : String)
    (message : Message F) (event_id : String) (payload : Option (Payload F)) (error_code : String)
    (key : Key) (outside : first_code key.pk ≢ 68) where
  pub get-quarantine_message :
      get_item key (quarantine_message now table consumer message event_id payload error_code).1
      ≡ get_item key table
  unfolding quarantine_message put_dead_letter
  get-quarantine_message =
      let own = dead_letter_key consumer event_id in
      let starts : first_code own.pk ≡ 68 =
        first_code-cons "D" "EADLETTER#" (String.◌++◌ consumer "") in
      let apart = key_eq-apart_pk own key (omega arith) in
      let letter = dead_letter (record {
        payload = payload;
        error_code = error_code;
        attempts = delivery_attempt message;
        status = "active";
        recorded_at = now;
        redrive_request_id = none;
        redriven_at = none;
      }) in
      let got = get_item-put_item own key letter table in ground arith

  pub get-retry_or_quarantine :
      (maximum : ℕ)
      → get_item key
          (retry_or_quarantine now table consumer message event_id payload error_code maximum).1
        ≡ get_item key table
  unfolding retry_or_quarantine
  get-retry_or_quarantine maximum = let put = get-quarantine_message in ground arith
