-- ===== src/Examples/LegRuns.antt =====
-- Runs of legs.service.ts.
use arbibot.Store.Exec.{record_audit, Reply, returned, after, threw}
use arbibot.Store.Outcome.{service_unavailable}
use arbibot.Legs.Cost.{is_live_leg}
use arbibot.Legs.Send.{
  find_leg_of_plan, begin_mark_sent, SendEnv, accepted, other_error, move_leg, mark_sent,
}
use arbibot.Base.{save_row, find_key, str_eq, ◌≡◌, refl, false, none, some, [], ◌∷◌, Option}
use arbibot.Store.Types.{
  create_multi_leg_plan, Plan, executing, Leg, created, World, filled, submitting, leg_failed,
  acknowledged,
}
use arbibot.Legs.Fill.{Settlement, apply_fill_tx, usable_key, fill_seen}
use arbibot.Legs.Sending.{begin_mark_sent_sound, EndsAs, mark_sent_ends, missing_bridge_params}
use arbibot.Legs.Replay.{apply_fill_again}
use arbibot.Examples.{call, plan_in, leg_in, world, running, fill_all}

abbrev sending : SendEnv
sending = record {
  live_halted = false;
  submit_leg = λ plan leg. accepted "order-1" none;
  bridge_params = λ plan leg. false;
  submit_bridge = λ plan leg. other_error;
}

abbrev begun : Reply (Plan × Leg)
begun = begin_mark_sent false call "p1" "l1" running

abbrev reserved_leg : Leg
reserved_leg = move_leg call submitting (leg_in "l1" created 0)

begins : begun ≡ returned (plan_in executing, reserved_leg) (after begun)
unfolding begin_mark_sent find_key str_eq find_leg_of_plan is_live_leg
begins = refl

begin_mark_sent_sound_example :
    find_leg_of_plan "p1" "l1" (after begun)
    ≡ some (move_leg call submitting (begin_mark_sent_sound false call "p1" "l1" running begins).0)
begin_mark_sent_sound_example = (begin_mark_sent_sound false call "p1" "l1" running begins).6

-- What another request commits during the broadcast.
abbrev meanwhile : World → World
meanwhile w = record_audit create_multi_leg_plan "p2" none w

reserved_found : find_leg_of_plan "p1" "l1" (meanwhile (after begun)) ≡ some reserved_leg
unfolding find_leg_of_plan begin_mark_sent find_key is_live_leg save_row
reserved_found = refl

mark_sent_ends_example :
    EndsAs call "p1" "l1" reserved_leg
      (accepted "order-1" none)
      (meanwhile (after begun))
      (mark_sent sending call meanwhile "p1" "l1" running)
unfolding str_eq
mark_sent_ends_example =
    mark_sent_ends sending call meanwhile "p1" "l1" running begins refl reserved_found refl

abbrev bridging : World
bridging = world (plan_in executing) (record (leg_in "l1" created 0) { leg_type = "bridge" } ∷ [])

abbrev bridge_begun : Reply (Plan × Leg)
bridge_begun = begin_mark_sent false call "p1" "l1" bridging

abbrev bridge_leg : Leg
bridge_leg = record (move_leg call submitting (leg_in "l1" created 0)) { leg_type = "bridge" }

bridge_begins : bridge_begun ≡ returned (plan_in executing, bridge_leg) (after bridge_begun)
unfolding begin_mark_sent find_key str_eq find_leg_of_plan is_live_leg
bridge_begins = refl

missing_bridge_params_example :
    (v : World) × (mark_sent sending call meanwhile "p1" "l1" bridging
      ≡ threw service_unavailable (meanwhile v))
    × (find_leg_of_plan "p1" "l1" v ≡ some (move_leg call leg_failed bridge_leg))
unfolding str_eq
missing_bridge_params_example =
    missing_bridge_params sending call meanwhile "p1" "l1" bridging bridge_begins refl refl

abbrev acknowledged_world : World
acknowledged_world = world (plan_in executing) (leg_in "l1" acknowledged 0 ∷ [])

abbrev fill_reply : Reply (Leg × Option Settlement)
fill_reply = apply_fill_tx call "p1" "l1" fill_all acknowledged_world

abbrev filled_leg : Leg
filled_leg = record (move_leg call filled (leg_in "l1" acknowledged 0)) { filled_quantity = 10 }

abbrev settlement : Settlement
settlement = record { instrument_key = "arb:risk-decision:d1"; chain_id = none; token_in = none }

fill_succeeds : fill_reply ≡ returned (filled_leg, some settlement) (after fill_reply)
unfolding apply_fill_tx find_key find_leg_of_plan
fill_succeeds = refl

key_is_usable : usable_key (some "k1") ≡ some "k1"
unfolding usable_key
key_is_usable = refl

key_is_new : fill_seen "l1" "k1" [] ≡ false
unfolding fill_seen
key_is_new = refl

apply_fill_again_example :
    apply_fill_tx call "p1" "l1" fill_all (after fill_reply)
    ≡ returned (filled_leg, none) (after fill_reply)
apply_fill_again_example =
    apply_fill_again call call "p1" "l1" "k1" fill_all fill_all acknowledged_world key_is_usable
      key_is_usable key_is_new fill_succeeds
