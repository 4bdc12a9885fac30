-- ===== src/Error.antt =====
-- src/l0_system/error.h: the error codes that REMO_THROW carries, and what a call can come to.
use libremo.Prelude.{◌≡◌, refl, Bool, true, false}

-- The codes that the modelled code throws, `ErrorCode` in the source.
pub data ErrorCode : Type 0 where
  err_packet_full : ErrorCode
  err_bad_packet_access : ErrorCode
  err_param_type_invalid : ErrorCode
  err_param_num_mismatch : ErrorCode
  err_func_name_missing : ErrorCode
  err_pointer_needs_size : ErrorCode
  err_must_recycle : ErrorCode
  err_cannot_recycle : ErrorCode
  err_out_of_packets : ErrorCode
  err_bad_packet : ErrorCode
  err_invalid_identifier : ErrorCode
  err_invalid_array_length : ErrorCode
  err_invalid_value_type : ErrorCode
  err_result_type_mismatch : ErrorCode
  err_param_type_mismatch : ErrorCode
  err_outparam_type_mismatch : ErrorCode
  err_item_already_existing : ErrorCode
  err_item_already_registered : ErrorCode
  err_item_not_found : ErrorCode
  err_rpc_not_found : ErrorCode
  err_bad_value_access : ErrorCode
  err_getaddrinfo_failed : ErrorCode
  err_getnameinfo_failed : ErrorCode
  err_socket_unsupported_family : ErrorCode
  err_socket_unsupported_protocol : ErrorCode
  err_socket_open_failed : ErrorCode
  err_socket_close_failed : ErrorCode
  err_socket_connect_failed : ErrorCode
  err_socket_bind_failed : ErrorCode
  err_socket_poll_failed : ErrorCode
  err_socket_syscall_failed : ErrorCode
  err_socket_buffer_too_small : ErrorCode
  err_socket_send_failed : ErrorCode
  err_socket_send_incomplete : ErrorCode
  err_socket_recv_incomplete : ErrorCode

-- `error` is a thrown exception, `fault` a failed REMO_ASSERT or an access outside an object, and
-- `timeout` a loop whose fuel ran out.
pub data Result {ℓ} (A : Type ℓ) : Type ℓ where
  ok : A → Result A
  error : ErrorCode → Result A
  fault : Result A
  timeout : Result A

-- What comes after a call: nothing, unless the call came to a value.
infixl 5 ◌>>=◌
abbrev pub ◌>>=◌ {ℓ κ} : {A : Type ℓ} {B : Type κ} → Result A → (A → Result B) → Result B
fault >>= k = fault
timeout >>= k = timeout
error code >>= k = error code
ok value >>= k = k value

-- REMO_THROW_IF
abbrev pub throw_if : Bool → ErrorCode → Result (Unit {0})
throw_if true e = error e
throw_if false e = ok tt

-- REMO_ASSERT in a build with assertions
abbrev pub remo_assert : Bool → Result (Unit {0})
remo_assert true = ok tt
remo_assert false = fault

-- What happens in a destructor: an exception ends the program.
abbrev pub in_destructor {ℓ} : {A : Type ℓ} → Result A → Result A
in_destructor (ok a) = ok a
in_destructor (error e) = fault
in_destructor fault = fault
in_destructor timeout = timeout

pub >>=-assoc {ℓ κ μ} :
    {A : Type ℓ} {B : Type κ} {C : Type μ} (m : Result A) (f : A → Result B) (g : B → Result C)
    → ((m >>= f) >>= g) ≡ (m >>= λ a. f a >>= g)
>>=-assoc (ok a) f g = refl
>>=-assoc (error e) f g = refl
>>=-assoc fault f g = refl
>>=-assoc timeout f g = refl

pub >>=-ok {ℓ} : {A : Type ℓ} (m : Result A) → (m >>= λ a. ok a) ≡ m
>>=-ok (ok a) = refl
>>=-ok (error e) = refl
>>=-ok fault = refl
>>=-ok timeout = refl

-- What holds of the value, if there is one.
abbrev pub Yields {ℓ κ} : {A : Type ℓ} → (A → Type κ) → Result A → Type κ
Yields P (ok a) = P a
Yields P (error e) = Unit
Yields P fault = Unit
Yields P timeout = Unit

pub Yields->>= {ℓ κ} :
    {A B : Type ℓ} (P : A → Type κ) (Q : B → Type κ) (m : Result A) (k : A → Result B)
    → Yields P m
    → ((a : A) → P a → Yields Q (k a))
    → Yields Q (m >>= k)
Yields->>= P Q (ok a) k h f = f a h
Yields->>= P Q (error e) k h f = tt
Yields->>= P Q fault k h f = tt
Yields->>= P Q timeout k h f = tt

pub Yields-pair {ℓ κ μ} :
    {A : Type ℓ} (P : A → Type κ) (Q : A → Type μ) (m : Result A)
    → Yields P m
    → Yields Q m
    → Yields (λ a. P a × Q a) m
Yields-pair P Q (ok a) h k = (h, k)
Yields-pair P Q (error e) h k = tt
Yields-pair P Q fault h k = tt
Yields-pair P Q timeout h k = tt

pub Yields-map {ℓ κ μ} :
    {A : Type ℓ} (P : A → Type κ) (Q : A → Type μ) (m : Result A)
    → Yields P m
    → ((a : A) → P a → Q a)
    → Yields Q m
Yields-map P Q (ok a) h f = f a h
Yields-map P Q (error e) h f = tt
Yields-map P Q fault h f = tt
Yields-map P Q timeout h f = tt
