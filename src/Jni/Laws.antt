-- ===== src/Jni/Laws.antt =====
-- The conversions of include/jni_helpers.h are inverse.
use metaru.Common.{Option, none, some, ◌≡◌, refl}
use metaru.Jni.{Jvm, JvmLaws, joptional_to_optional, optional_to_joptional}

module _ {Object T : Type 0} (jvm : Jvm Object) (laws : JvmLaws Object jvm) (to : T → Object)
    (back : Object → T) (inverse : (value : T) → back (to value) ≡ value) where
  -- An optional that is handed to Java, its value by a converter that gives no null reference, is read
  -- back as it was.
  pub joptional_to_optional-optional_to_joptional :
      (opt : Option T)
      → joptional_to_optional jvm (optional_to_joptional jvm opt (λ value. some (to value))) back
        ≡ opt
  unfolding joptional_to_optional optional_to_joptional
  joptional_to_optional-optional_to_joptional none = rw (laws.empty, laws.empty_absent) refl
  joptional_to_optional-optional_to_joptional (some value) =
      rw (laws.of (to value), laws.of_present (to value), laws.of_get (to value), inverse value)
        refl
