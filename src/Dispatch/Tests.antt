-- ===== src/Dispatch/Tests.antt =====
-- The batch of the sample submission of Index, on a node with an empty log.
use stophammer.Common.{◌≡◌, refl, true, Option, none, List, [], ◌∷◌, String, map, any}
use stophammer.Common.Int.{pos}
use stophammer.Common.Keyed.{find, put}
use stophammer.Copies.Table.{CopySummary}
use stophammer.Sync.Log.{Event, has_event}
use stophammer.Sync.Apply.{Replica, apply_events}
use stophammer.Index.Ingest.{ingest_transaction}
use stophammer.Index.Diff.{build_diff_events}
use stophammer.Index.Follow.SameRows.{Agree}
use stophammer.Index.Sample.{
  replica_tables, stored_tables, submitted, submitted-IsProper, stored_tables-HasNoOrphan,
  stored_tables-HasNoStray, same_tables,
}
use stophammer.Dispatch.Observed.{Sighting, SameRows, observe, apply_observations, observe-SameRows}
use stophammer.Dispatch.Payload.{NodeTables, EventPayload, payload_writer}
use stophammer.Dispatch.Fresh.{AreNew, Carries}
use stophammer.Dispatch.Follows.{ingest_event_rows, payloads_of, apply_events-Agree}

abbrev lower : String → String
lower s = s

abbrev no_digest : CopySummary → Option String
no_digest s = none

-- The event with this id and payload text.
abbrev signed : String → Event
signed id = record {
  event_id = id;
  event_type = "event";
  payload_json = id;
  subject_guid = "f";
  signed_by = "primary";
  signature = "";
  seq = pos 1;
  created_at = pos 9;
}

abbrev ids : List String
ids = "a" ∷ "b" ∷ "c" ∷ "d" ∷ "e" ∷ "f" ∷ "g" ∷ []

abbrev zip : List String → List EventPayload → List (String × EventPayload)
zip [] ps = []
zip (k ∷ ks) [] = []
zip (k ∷ ks) (p ∷ ps) = (k, p) ∷ zip ks ps

abbrev decode : Event → Option EventPayload
decode e =
    find e.payload_json
      (zip ids (payloads_of (ingest_event_rows (pos 9) [] stored_tables submitted)))

abbrev node : Replica NodeTables
node = record {
  log = [];
  cursors = [];
  tables = record {
    index = replica_tables;
    observations = [];
    block_db = record { blocks = []; copies = [] };
    guid_changes = [];
    supersessions = [];
  };
}

ids_new : AreNew [] (map signed ids)
unfolding has_event any
ids_new = (
  refl,
  (
    (refl, (refl, (refl, (refl, (refl, (refl, tt)))))),
    (
      refl,
      (
        (refl, (refl, (refl, (refl, (refl, tt))))),
        (
          refl,
          (
            (refl, (refl, (refl, (refl, tt)))),
            (
              refl,
              (
                (refl, (refl, (refl, tt))),
                (refl, ((refl, (refl, tt)), (refl, ((refl, tt), (refl, (tt, tt)))))),
              ),
            ),
          ),
        ),
      ),
    ),
  ),
)

ids_carry :
    Carries
      (payload_writer lower no_digest decode)
      (map signed ids)
      (payloads_of (ingest_event_rows (pos 9) [] stored_tables submitted))
unfolding payload_writer find ingest_event_rows build_diff_events ingest_transaction
ids_carry = (refl, (refl, (refl, (refl, (refl, (refl, (refl, tt)))))))

apply_events-Agree_example :
    Agree "f"
      (ingest_transaction stored_tables submitted).0
      (apply_events
        (payload_writer lower no_digest decode)
        (λ e. true)
        (pos 10)
        true
        node
        (map signed ids)).0.tables.index
apply_events-Agree_example =
    apply_events-Agree lower no_digest decode (λ e. true) (pos 9) (pos 10) [] stored_tables
      submitted node (map signed ids) submitted-IsProper stored_tables-HasNoOrphan
      stored_tables-HasNoStray same_tables
      (refl, (refl, (refl, (refl, (refl, (refl, (refl, tt))))))) ids_new ids_carry

-- The second sighting gives no event, the third replaces the row.
abbrev sightings : List Sighting
sightings =
    record { url = "u"; feed_guid = "f"; seen_at = pos 1 }
    ∷ record { url = "u"; feed_guid = "f"; seen_at = pos 2 }
    ∷ record { url = "u"; feed_guid = "g"; seen_at = pos 3 }
    ∷ []

observe-SameRows_example :
    SameRows (observe [] sightings).0 (apply_observations [] (observe [] sightings).1)
observe-SameRows_example = observe-SameRows [] [] sightings (λ k. refl)

sightings-events : map (λ o. o.observed_at) (observe [] sightings).1 ≡ pos 1 ∷ pos 3 ∷ []
unfolding observe find put
sightings-events = refl
