-- ===== src/Expectations/Counter/Examples.antt =====
-- A controller that expects two creations and one deletion.
use kuperator.Common.{◌≡◌, refl, true, List, [], ◌∷◌, arith, codes, Text, text_eq, returns}
use kuperator.Expectations.InMemory.{in_memory, in_memory-IsStore, put}
use kuperator.Expectations.Counter.{
  ControlleeExpectations, key_of, satisfied_expectations, set_expectations,
}
use kuperator.Expectations.Counter.Observed.{
  Event, created, deleted, observe_all, satisfied_expectations_after,
}

abbrev web : Text
web = codes "default/web"

abbrev job : Text
job = codes "default/job"

abbrev events : List Event
events = created web ∷ created job ∷ deleted web ∷ created web ∷ []

abbrev waiting : List ControlleeExpectations
waiting = record { add = 2; del = 1; key = web; timestamp = 5 } ∷ []

satisfied_expectations_after_example :
    satisfied_expectations (in_memory key_of) 99 (observe_all (in_memory key_of) waiting events) web
    ≡ returns true
unfolding put text_eq set_expectations
satisfied_expectations_after_example =
    satisfied_expectations_after (in_memory key_of) (in_memory-IsStore key_of) [] waiting 5 99 web 2
      1 events (omega arith) (omega arith) (omega arith) (omega arith) refl
