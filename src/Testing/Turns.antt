-- ===== src/Testing/Turns.antt =====
-- The turns of the interpreters, and the interfaces to Java, at concrete values.
use metaru.Testing.{frame_of, adder}
use metaru.Common.{ℕ, ◌≡◌, ◌↔◌, inl, refl, Option, none, some, Bool, true, false, arith}
use metaru.Common.Int.{◌-ℤ◌}
use metaru.Frame.{Frame}
use metaru.Loop.{Run, next, returned}
use metaru.Loop.Sound.{IsGoing}
use metaru.Loop.Steps.{here, more, turn, start}
use metaru.Evm
use metaru.Jumptable
use metaru.Jumptable.Limits.{IsWithin}
use metaru.Optimized
use metaru.Interpreters.Turns.{IsOutcome, execute_message_iff, IsPassed, IsPassed-IsSafe}
use metaru.Jni.{Jvm, JvmLaws, joptional_to_optional, optional_to_joptional}
use metaru.Jni.Laws.{joptional_to_optional-optional_to_joptional}

abbrev begun : Frame
begun = frame_of adder 100

-- The run that the switch interpreter answers.
abbrev ended : Run
ended = elim (Evm.Run.execute_message true begun) [ some r ↦ r | none ↦ start begun ]

execute_message_iff_example :
    ((Evm.Run.execute_message true begun ≡ some ended) ↔ IsOutcome (Evm.Run.round true) begun ended)
    × ((Jumptable.Run.execute_message true begun ≡ some ended)
        ↔ IsOutcome (Jumptable.Run.round true) begun ended)
    × ((Optimized.Run.execute_message true begun ≡ some ended)
        ↔ IsOutcome (Optimized.Run.round true) begun ended)
execute_message_iff_example = execute_message_iff true begun ended

-- The frame after the first PUSH1.
abbrev pushed : Run
pushed = elim (Evm.Run.round true (start begun)) [ next r ↦ r | returned r ↦ r ]

first_turn : Evm.Run.round true (start begun) ≡ next pushed
unfolding Evm.Run.round Evm.Ops.op_push ◌-ℤ◌
first_turn = refl

passed : IsPassed true begun pushed
passed = inl (more here (turn refl first_turn))

IsPassed-IsSafe_example : IsGoing begun pushed × IsWithin begun pushed
IsPassed-IsSafe_example = IsPassed-IsSafe true begun pushed (omega arith) passed

-- Objects of Java: numbers, and optionals of them.
data JavaObject : Type 0 where
  boxed : ℕ → JavaObject
  empty_optional : JavaObject
  optional_of : JavaObject → JavaObject

abbrev is_present : JavaObject → Bool
is_present (boxed n) = false
is_present empty_optional = false
is_present (optional_of value) = true

abbrev get : JavaObject → Option JavaObject
get (boxed n) = none
get empty_optional = none
get (optional_of value) = some value

abbrev wrap : Option JavaObject → Option JavaObject
wrap none = none
wrap (some value) = some (optional_of value)

abbrev machine : Jvm JavaObject
machine = record {
  optional_is_present = is_present;
  optional_get = get;
  optional_empty = some empty_optional;
  optional_of = wrap;
}

machine_laws : JvmLaws JavaObject machine
machine_laws = record {
  empty_object = empty_optional;
  empty = refl;
  empty_absent = refl;
  of_object = optional_of;
  of = λ value. refl;
  of_present = λ value. refl;
  of_get = λ value. refl;
}

abbrev unbox : JavaObject → ℕ
unbox (boxed n) = n
unbox empty_optional = 0
unbox (optional_of value) = 0

joptional_to_optional-optional_to_joptional_example :
    joptional_to_optional machine
      (optional_to_joptional machine (some 7) (λ n. some (boxed n)))
      unbox
    ≡ some 7
joptional_to_optional-optional_to_joptional_example =
    joptional_to_optional-optional_to_joptional machine machine_laws boxed unbox (λ n. refl)
      (some 7)
