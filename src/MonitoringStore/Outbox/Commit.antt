-- ===== src/MonitoringStore/Outbox/Commit.antt =====
-- What a committed evaluation leaves in the store.
use Prim.Native.String
use flight_multi_agent.Base.{
  ℕ, ◌≡◌, ◌≢◌, refl, String, false, Option, none, some, arith, ◌&&◌, if◌then◌else◌, Option-cases,
  inl, inr,
}
use flight_multi_agent.Base.Text.{truthy, first_code, first_code-cons}
use flight_multi_agent.Base.Assoc.{Dict}
use flight_multi_agent.Base.Table.{
  Key, Table, get_item, key_eq, get_item-put_item, key_eq_refl, key_eq-apart_pk, key_eq-apart_sk,
}
use flight_multi_agent.Evidence.{Decision}
use flight_multi_agent.Events.{ConfirmedEvent, event_type_text, OutboxRecord, confirmed_outbox}
use flight_multi_agent.MonitoringStore.{
  Item, get_decision, get_confirmed_event, get_policy_band, decision, confirmed, band, advisory,
  decision_key, confirmed_key, band_key, advisory_key, outbox_key,
}
use flight_multi_agent.MonitoringStore.Outbox.{
  commit_evaluation_with_outbox, with_event, with_band, with_advisory, with_decision, with_outbox,
  record_key, outbox_item, pending,
}

pub pk_candidate : (id : String) → first_code (decision_key id).pk ≡ 67
pk_candidate id = first_code-cons "C" "ANDIDATE#" (String.◌++◌ id "")

pub pk_band : (episode : String) → first_code (band_key episode).pk ≡ 80
pk_band episode = first_code-cons "P" "OLICY#" (String.◌++◌ episode "")

pub pk_outbox : (event_type event_id : String) → first_code (outbox_key event_type event_id).pk ≡ 79
pk_outbox event_type event_id = first_code-cons "O" "UTBOX#" (String.◌++◌ event_type "")

module _ {F : Type 0} (table : Table (Item F)) (key : Key) where
  get-with_event :
      (id : String) (event : Option ConfirmedEvent)
      → key_eq (confirmed_key id) key ≡ false
      → get_item key (with_event table id event) ≡ get_item key table
  unfolding with_event
  get-with_event id none apart = refl
  get-with_event id (some e) apart =
      let got = get_item-put_item (confirmed_key id) key (confirmed e) table in ground arith

  get-with_band :
      (episode : String) (notified : Option ℕ)
      → key_eq (band_key episode) key ≡ false
      → get_item key (with_band table episode notified) ≡ get_item key table
  unfolding with_band
  get-with_band episode none apart = refl
  get-with_band episode (some b) apart =
      let got = get_item-put_item (band_key episode) key (band b) table in ground arith

  get-with_advisory :
      (id : String) (advice : Option String)
      → key_eq (advisory_key id) key ≡ false
      → get_item key (with_advisory table id advice) ≡ get_item key table
  unfolding with_advisory
  get-with_advisory id none apart = refl
  get-with_advisory id (some text) apart =
      let got = get_item-put_item (advisory_key id) key (advisory text) table in ground arith

  get-with_decision :
      (id : String) (d : Decision F)
      → get_item key (with_decision table id d)
        ≡ (if key_eq (decision_key id) key then some (decision d) else get_item key table)
  unfolding with_decision
  get-with_decision id d = get_item-put_item (decision_key id) key (decision d) table

  get-with_outbox :
      (headers : Dict String) (event : Option ConfirmedEvent)
      → first_code key.pk ≢ 79
      → get_item key (with_outbox table headers event) ≡ get_item key table
  unfolding with_outbox
  get-with_outbox headers none apart = refl
  get-with_outbox headers (some e) apart =
      let r : OutboxRecord F = confirmed_outbox headers e in
      let own = pk_outbox (event_type_text r.event_type) r.event_id in
      let differ = key_eq-apart_pk (record_key r) key (omega arith) in
      let got = get_item-put_item (record_key r) key (outbox_item r) table in ground arith

module _ {F : Type 0} (headers : Dict String) (id : String) (d : Decision F)
    (event : Option ConfirmedEvent) (episode : String) (notified : Option ℕ)
    (advice : Option String) (table : Table (Item F)) where
  abbrev after_event : Table (Item F)
  after_event = with_event table id event

  abbrev after_band : Table (Item F)
  after_band = with_band after_event episode notified

  abbrev after_advisory : Table (Item F)
  after_advisory = with_advisory after_band id advice

  abbrev after_decision : Table (Item F)
  after_decision = with_decision after_advisory id d

  abbrev committed : Table (Item F)
  committed = commit_evaluation_with_outbox headers id d event episode notified advice table

  -- The transaction stores the decision under its candidate.
  pub decision-committed : get_decision committed id ≡ some d
  unfolding get_decision commit_evaluation_with_outbox
  decision-committed =
      let key = decision_key id in
      let own = pk_candidate id in
      let last = get-with_outbox after_decision key headers event (omega arith) in
      let put = get-with_decision after_advisory key id d in
      let same = key_eq_refl key in ground arith

  -- It stores the confirmed event, if there is one, and keeps the one that was there otherwise.
  pub confirmed-committed :
      get_confirmed_event committed id
      ≡ (elim event [ none ↦ get_confirmed_event table id | some e ↦ some e ])
  unfolding get_confirmed_event commit_evaluation_with_outbox with_event
  confirmed-committed =
      let key = confirmed_key id in
      let own = pk_candidate id in
      let own_band = pk_band episode in
      let last = get-with_outbox after_decision key headers event (omega arith) in
      let put = get-with_decision after_advisory key id d in
      let apart = key_eq-apart_sk (decision_key id) key (omega arith) in
      let middle =
        get-with_advisory after_band key id advice
          (key_eq-apart_sk (advisory_key id) key (omega arith)) in
      let first =
        get-with_band after_event key episode notified
          (key_eq-apart_pk (band_key episode) key (omega arith)) in
      let held : get_item key committed ≡ get_item key after_event = ground arith in
      elim (Option-cases event) [
        | inl missing ↦ ground arith
        | inr (e, found) ↦
            let put_event = get_item-put_item key key (confirmed e) table in
            let same = key_eq_refl key in ground arith
      ]

  -- A band is stored only for an episode with a name, and no other episode's band changes.
  pub band-committed :
      (other : String)
      → get_policy_band committed other ≡ (elim notified [
        | none ↦ get_policy_band table other
        | some b ↦
            if truthy episode && key_eq (band_key episode) (band_key other)
            then some b
            else get_policy_band table other
      ])
  unfolding get_policy_band commit_evaluation_with_outbox with_band
  band-committed other =
      let key = band_key other in
      let own = pk_band other in
      let own_candidate = pk_candidate id in
      let last = get-with_outbox after_decision key headers event (omega arith) in
      let put = get-with_decision after_advisory key id d in
      let apart = key_eq-apart_pk (decision_key id) key (omega arith) in
      let middle =
        get-with_advisory after_band key id advice
          (key_eq-apart_pk (advisory_key id) key (omega arith)) in
      let first =
        get-with_event table key id event (key_eq-apart_pk (confirmed_key id) key (omega arith)) in
      let held : get_item key committed ≡ get_item key after_band = ground arith in
      elim (Option-cases notified) [
        | inl missing ↦ ground arith
        | inr (b, found) ↦
            let put_band = get_item-put_item (band_key episode) key (band b) after_event in
            ground arith
      ]

  -- The confirmed event waits in the outbox.
  pub pending-committed :
      (e : ConfirmedEvent)
      → event ≡ some e
      → pending committed (record_key (confirmed_outbox {F = F} headers e))
        ≡ some (confirmed_outbox headers e)
  unfolding commit_evaluation_with_outbox with_outbox
  pending-committed e found =
      let r : OutboxRecord F = confirmed_outbox headers e in
      let key = record_key r in
      let put = get_item-put_item key key (outbox_item r) after_decision in
      let same = key_eq_refl key in ground arith
