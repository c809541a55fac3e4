-- ===== src/Jni.antt =====
-- include/jni_helpers.h: the two conversions between std::optional and java.util.Optional. The Java
-- virtual machine is a parameter: what the code calls of it, and what java.util.Optional documents of
-- those calls.
pub mod Laws
use metaru.Common.{Option, none, some, Bool, true, false, ◌≡◌, if◌then◌else◌}

-- Calls through JNIEnv with the cached method IDs. A null reference is `none`.
pub record Jvm (Object : Type 0) : Type 0 where
  pub optional_is_present : Object → Bool
  pub optional_get : Object → Option Object
  pub optional_empty : Option Object
  pub optional_of : Option Object → Option Object

-- Optional.empty() is an object with no value present, and Optional.of(value), for a value that is not
-- null, one with the value present, which get() answers.
pub record JvmLaws (Object : Type 0) (jvm : Jvm Object) : Type 0 where
  pub empty_object : Object
  pub empty : jvm.optional_empty ≡ some empty_object
  pub empty_absent : jvm.optional_is_present empty_object ≡ false
  pub of_object : Object → Object
  pub of : (value : Object) → jvm.optional_of (some value) ≡ some (of_object value)
  pub of_present : (value : Object) → jvm.optional_is_present (of_object value) ≡ true
  pub of_get : (value : Object) → jvm.optional_get (of_object value) ≡ some value

module _ {Object T : Type 0} (jvm : Jvm Object) where
  unfoldable pub joptional_to_optional : Option Object → (Object → T) → Option T
  joptional_to_optional none converter = none
  joptional_to_optional (some jopt) converter =
      if jvm.optional_is_present jopt
      then elim (jvm.optional_get jopt) [ none ↦ none | some value ↦ some (converter value) ]
      else none

  unfoldable pub optional_to_joptional : Option T → (T → Option Object) → Option Object
  optional_to_joptional none converter = jvm.optional_empty
  optional_to_joptional (some value) converter = jvm.optional_of (converter value)
