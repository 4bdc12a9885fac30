-- ===== src/Types.antt =====
-- src/l0_system/types.h and types.cpp: type ids, typed values, and the type-checked access to them.
mod Codes
use Prim.Native.String.{String}
use libremo.Prelude.{
  ℕ, ◌*◌, ◌/◌, ◌%◌, bit_and, bit_or, Bool, true, false, ◌&&◌, ◌||◌, List, [], ◌∷◌, take, replicate,
  ◌==◌, if◌then◌else◌,
}
use libremo.Error.{Result, ok, error, fault, ◌>>=◌, throw_if, err_bad_value_access}
unfoldable pub use Codes.*

-- `TypedValue::m_value`: the object representation of a scalar or a bool, lowest address first; the
-- characters that a `const char*` leads to, without their NUL; or the object representation of the
-- scalar that a pointer leads to. `zeroed` is the value-initialised storage, a null pointer if it is
-- read as one.
pub data Storage : Type 0 where
  object : List ℕ → Storage
  text : List ℕ → Storage
  pointee : List ℕ → Storage
  zeroed : Storage

pub record TypedValue : Type 0 where
  pub type : TypeId
  pub value : Storage

-- TypedValue(TypeId)
unfoldable pub typed_value : TypeId → TypedValue
typed_value t = record { type = t; value = zeroed }

-- TypedValue(const T&), for the scalars, bool, const char* and the scalar pointers
unfoldable pub scalar_value : BaseId → List ℕ → TypedValue
scalar_value b bytes = record { type = plain b; value = object bytes }

unfoldable pub bool_value : Bool → TypedValue
bool_value x = record { type = plain type_bool; value = object ((if x then 1 else 0) ∷ []) }

unfoldable pub cstr_value : List ℕ → TypedValue
cstr_value chars = record { type = plain type_cstr; value = text chars }

unfoldable pub ptr_value : BaseId → List ℕ → TypedValue
ptr_value b bytes = record { type = pointer b; value = pointee bytes }

unfoldable pub check_type : TypedValue → TypeId → Result (Unit {0})
check_type v expected = throw_if (not_same expected v.type) err_bad_value_access

-- `get<T>()` for a scalar or bool T reads the first `sizeof(T)` bytes of the storage.
object_bytes : ℕ → Storage → Result (List ℕ)
object_bytes n (object bytes) = ok (take n bytes)
object_bytes n zeroed = ok (replicate n 0)
object_bytes n (text chars) = fault
object_bytes n (pointee bytes) = fault

text_chars : Storage → Result (List ℕ)
text_chars (text chars) = ok chars
text_chars (object bytes) = fault
text_chars (pointee bytes) = fault
text_chars zeroed = fault

pointee_bytes : Storage → Result (List ℕ)
pointee_bytes (pointee bytes) = ok bytes
pointee_bytes (object bytes) = fault
pointee_bytes (text chars) = fault
pointee_bytes zeroed = fault

unfoldable pub get_scalar : BaseId → TypedValue → Result (List ℕ)
unfolding check_type object_bytes
get_scalar b v = do _ ← check_type v (plain b); object_bytes (size_of b) v.value

first_set : List ℕ → Bool
first_set [] = false
first_set (x ∷ xs) = if x == 0 then false else true

unfoldable pub get_bool : TypedValue → Result Bool
unfolding check_type object_bytes first_set
get_bool v = do
  _ ← check_type v (plain type_bool)
  bytes ← object_bytes 1 v.value
  ok (first_set bytes)

unfoldable pub get_cstr : TypedValue → Result (List ℕ)
unfolding check_type text_chars
get_cstr v = do _ ← check_type v (plain type_cstr); text_chars v.value

unfoldable pub get_ptr : BaseId → TypedValue → Result (List ℕ)
unfolding check_type pointee_bytes
get_ptr b v = do _ ← check_type v (pointer b); pointee_bytes v.value
