-- ===== src/Applets/JackTests.antt =====
-- Runs of the model of the jack applet.
use overthinkin.Base.{
  All, none, ◌==◌, Bool, true, false, not, List, ◌∷◌, [], some, codes, ◌≡◌, refl, negsuc,
}
use overthinkin.Applets.Jack.{
  Control, Slot, slot_of, fetch_jack_ctls, Values, got, CtlEvent, Poll, timeout, readable,
  print_jack_baseline, refresh, handle_jack_events, run_jack_event_loop, watch_jacks,
}
use overthinkin.Applets.Chosen.{first_of, jacks, fetch_jack_ctls_lem}
use overthinkin.Applets.Plugged.{Compares}
use overthinkin.Applets.Lines.{Chained}
use overthinkin.Applets.Current.{Current, heard_rounds, first_readings}
use overthinkin.Applets.Printed.{Shown, watch_jacks-Shown}

abbrev headphone : Control
headphone = record { name = some (codes "Headphone Jack"); numid = 3; is_boolean = some true }

abbrev master : Control
master = record { name = some (codes "Master Volume"); numid = 4; is_boolean = some false }

abbrev microphone : Control
microphone = record { name = some (codes "Mic Jack"); numid = 7; is_boolean = some true }

fetch_jack_ctls_lem_example :
    fetch_jack_ctls 1 0 (headphone ∷ master ∷ microphone ∷ [])
    ≡ first_of 1 (jacks (headphone ∷ master ∷ microphone ∷ []))
fetch_jack_ctls_lem_example = fetch_jack_ctls_lem 1 (headphone ∷ master ∷ microphone ∷ [])

one_of_two :
    fetch_jack_ctls 1 0 (headphone ∷ master ∷ microphone ∷ []) ≡ (slot_of headphone ∷ [], true)
unfolding fetch_jack_ctls
one_of_two = refl

abbrev xor : Bool → Bool → Bool
xor true b = not b
xor false b = b

abbrev bools : Values
bools = record { Value = Bool; differs = xor; plugged = λ b. b }

bools-Compares : Compares bools
bools-Compares true true h = refl
bools-Compares true false h = cc
bools-Compares false true h = cc
bools-Compares false false h = refl

abbrev pulled : CtlEvent Bool
pulled = record { is_elem = true; matches = λ n. n == 3; reads = λ n. got false }

abbrev slots : List Slot
slots = slot_of headphone ∷ slot_of microphone ∷ []

abbrev polls : List (Poll Bool)
polls = timeout ∷ readable (pulled ∷ []) (negsuc 10) ∷ []

watch_jacks-Shown_example :
    let o = watch_jacks bools (λ n. got true) slots polls in
    Chained (λ n. none) o.lines
    × All (Shown bools (λ n. got true) o.lines) o.bound
    × Current bools (heard_rounds bools polls (first_readings bools (λ n. got true) slots)) o
watch_jacks-Shown_example =
    watch_jacks-Shown bools (λ n. got true) slots polls bools-Compares ((refl, _), _)

three_lines :
    (watch_jacks bools (λ n. got true) slots polls).lines
    ≡ record { name = codes "Headphone Jack"; was = none; is = true }
      ∷ record { name = codes "Mic Jack"; was = none; is = true }
      ∷ record { name = codes "Headphone Jack"; was = some true; is = false }
      ∷ []
unfolding watch_jacks run_jack_event_loop print_jack_baseline handle_jack_events refresh
three_lines = refl

last_values :
    heard_rounds bools polls (first_readings bools (λ n. got true) slots)
    ≡ (3, false) ∷ (7, true) ∷ []
last_values = refl
