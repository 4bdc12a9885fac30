-- ===== src/Examples/Endpoint.antt =====
-- Functions, registries and endpoints at concrete inputs.
use libremo.Prelude.{
  ℕ, zero, suc, All, replicate, leb, ◌≡◌, ◌≢◌, refl, List, [], ◌∷◌, ◌==◌, map, arith, length, some,
  none, Option, false, subst, Bool-cases, inl, inr, if◌then◌else◌,
}
use libremo.Error.{ok, error, err_param_num_mismatch, err_param_type_mismatch}
use libremo.Types.{
  not_same, check_type, scalar_value, cstr_value, ptr_value, plain, pointer, type_void, type_uint16,
  type_cstr, type_int32, type_code, typed_value,
}
use libremo.Packet.Layout.{IsFresh}
use libremo.Writer.{is_zero}
use libremo.Writer.Encoding.{encode_call}
use libremo.Writer.WireSize.{significant}
use libremo.Writer.Results.{void, typed_of, typed_of_arg, encode_result}
use libremo.Reader.Packets.{updated_args}
use libremo.Rpc.Item.{Function, call_item, is_valid_name, is_letter, is_words, is_word}
use libremo.Rpc.Item.Calls.{call_item_lem, codes_of}
use libremo.Rpc.Registry.{Local, unregister_item, find_item, lookup, call, put, bind}
use libremo.Rpc.Registry.Ownership.{
  IsRegistry, none-some, registered-IsRegistry, unregister_item-IsRegistry,
}
use libremo.Rpc.Remote.{Owned, Remote, returns, remote_call}
use libremo.Rpc.Remote.Loopback.{remote_call_lem}
use libremo.Rpc.Remote.Kept.{Holds, held, remote_call-Holds}
use libremo.Rpc.Endpoint.{Endpoint, connect, destroy_local}
use libremo.Rpc.Endpoint.Served.{IsIdle, IsSpare, call_again, bind-connect-call}
use libremo.Rpc.Endpoint.Gone.{kept, destroy_local_lem}
use libremo.Rpc.Registry.Clear.{others}
use libremo.Examples.Wire.{fresh, fresh-IsFresh, add_name, add_args, sent_args}

-- void add(uint16_t, const char*, int32_t*), which leaves 265 behind the pointer
abbrev add_function : Option ℕ → Function
add_function e = record {
  name = add_name;
  endpoint = e;
  result_type = plain type_void;
  param_types = plain type_uint16 ∷ plain type_cstr ∷ pointer type_int32 ∷ [];
  body = λ args. ok (typed_value (plain type_void), map typed_of_arg sent_args);
}

abbrev empty_local : Local
empty_local = record {
  self = 1;
  heap = λ q. if q == 7 then some (add_function none) else none;
  items = [];
}

abbrev add_local : Local
add_local = record {
  self = 1;
  heap = put empty_local.heap 7 (some (add_function (some 1)));
  items = (add_name, 7) ∷ [];
}

not-ours : (i j : Function) → some i ≡ some j → i.endpoint ≡ none → j.endpoint ≢ some 1
not-ours i j h k e = cc

empty_local-owned :
    (p : ℕ) (item : Function) → empty_local.heap p ≡ some item → item.endpoint ≢ some 1
empty_local-owned p item h e = elim (Bool-cases (p == 7)) [
  | inl k ↦
      not-ours (add_function none) item
        (subst (λ b. (if b then some (add_function none) else none) ≡ some item) k h) refl e
  | inr k ↦
      absurd (no_item (subst (λ b. (if b then some (add_function none) else none) ≡ some item) k h))
]
  where
    no_item : none ≢ some item
    no_item g = cc

empty_local-IsRegistry : IsRegistry empty_local
unfolding find_item lookup
empty_local-IsRegistry = record {
  entry = λ name p h. absurd (no_entry p h);
  owned = λ p item h e. absurd (empty_local-owned p item h e);
}
  where
    no_entry : (p : ℕ) → none ≢ some p
    no_entry p g = cc

add_local-IsRegistry : IsRegistry add_local
unfolding find_item lookup
add_local-IsRegistry =
    registered-IsRegistry empty_local 7 (add_function none) empty_local-IsRegistry refl refl refl

unregister_item-IsRegistry_example :
    (l' : Local) × (unregister_item (some 7) add_local ≡ ok l')
    × IsRegistry l'
    × (find_item add_name l' ≡ none)
    × ((name : List ℕ) → name ≢ add_name → find_item name l' ≡ find_item name add_local)
unregister_item-IsRegistry_example =
    unregister_item-IsRegistry add_local 7 (add_function (some 1)) add_local-IsRegistry refl refl

call_item_lem_example :
    (codes_of (map typed_of_arg add_args) ≡ map type_code (add_function none).param_types
      → call_item (add_function none) (map typed_of_arg add_args)
        ≡ (add_function none).body (map typed_of_arg add_args))
    × (length (add_function none).param_types ≢ length (map typed_of_arg add_args)
        → call_item (add_function none) (map typed_of_arg add_args) ≡ error err_param_num_mismatch)
    × (length (add_function none).param_types ≡ length (map typed_of_arg add_args)
        → codes_of (map typed_of_arg add_args) ≢ map type_code (add_function none).param_types
        → call_item (add_function none) (map typed_of_arg add_args) ≡ error err_param_type_mismatch)
call_item_lem_example = call_item_lem (add_function none) (map typed_of_arg add_args)

abbrev packet : Owned
packet = record { object = fresh; pooled = false }

add_called :
    call add_name (map typed_of_arg add_args) add_local
    ≡ ok (typed_of void, map typed_of_arg sent_args)
unfolding call not_same check_type typed_of_arg typed_of scalar_value cstr_value ptr_value
    typed_value
add_called = refl

remote_call_lem_example :
    (x' y' : Owned) × (remote_call 2 add_local add_name add_args
        (record { packet_pool = packet ∷ packet ∷ []; received_result = none })
      ≡ returns
          (typed_of void, updated_args add_args sent_args)
          (record { packet_pool = x' ∷ y' ∷ []; received_result = none }))
    × IsFresh 128 x'.object
    × IsFresh 128 y'.object
    × (x'.pooled ≡ false)
    × (y'.pooled ≡ false)
unfolding encode_call encode_result significant is_zero
remote_call_lem_example =
    remote_call_lem add_local add_name add_args sent_args void packet []
      (omega arith, (omega arith, (omega arith, tt)))
      ((refl, refl, refl), ((omega arith, (omega arith, tt)), ((refl, refl), tt))) tt
      ((refl, refl, refl), ((omega arith, (omega arith, tt)), ((refl, refl), tt)))
      (tt, (tt, ((refl, refl), tt))) add_called 0 packet fresh-IsFresh fresh-IsFresh (omega arith)
      (omega arith)

abbrev two_packets : Remote
two_packets = record { packet_pool = packet ∷ packet ∷ []; received_result = none }

remote_call-Holds_example :
    Holds (held two_packets) (remote_call 2 add_local add_name add_args two_packets)
remote_call-Holds_example = remote_call-Holds 2 add_local add_name add_args two_packets

abbrev alone : Endpoint
alone = record {
  local = record { self = 1; heap = λ q. none; items = [] };
  remotes = [];
  heap = λ q. none;
}

alone-IsRegistry : IsRegistry alone.local
unfolding find_item lookup
alone-IsRegistry = record {
  entry = λ name p h. absurd (none-some p h);
  owned = λ p item h e. absurd (none-some item h);
}

no_name : [] ≢ add_name
no_name h = cc

bind-connect-call_example :
    (l : Local) × (bind 7 add_name
        (plain type_void)
        (plain type_uint16 ∷ plain type_cstr ∷ pointer type_int32 ∷ [])
        (add_function none).body
        alone.local
      ≡ ok l)
    × IsRegistry l
    × (find_item [] l ≡ find_item [] alone.local)
    × (e' : Endpoint) × (connect 9 (record alone { local = l }) ≡ ok e')
    × (e'.local ≡ l)
    × (e'.remotes ≡ 9 ∷ [])
    × (s : Remote) × (e'.heap 9 ≡ some s)
    × IsIdle s
    × (s' : Remote) × (call_again 4 l add_name add_args s
        ≡ returns (typed_of void, updated_args add_args sent_args) s')
    × IsIdle s'
unfolding encode_call encode_result significant is_zero find_item lookup is_valid_name is_letter
    is_words is_word typed_of_arg typed_of scalar_value cstr_value ptr_value typed_value
bind-connect-call_example =
    bind-connect-call alone 7 9 add_name (plain type_void)
      (plain type_uint16 ∷ plain type_cstr ∷ pointer type_int32 ∷ []) (add_function none).body
      add_args sent_args void 4 [] alone-IsRegistry refl refl refl no_name
      ((refl, refl, refl), ((omega arith, (omega arith, tt)), ((refl, refl), tt))) tt
      ((refl, refl, refl), ((omega arith, (omega arith, tt)), ((refl, refl), tt)))
      (tt, (tt, ((refl, refl), tt))) refl refl (omega arith) (omega arith)

packets-IsSpare : (n : ℕ) → All IsSpare (replicate n packet)
packets-IsSpare zero = tt
packets-IsSpare (suc n) = ((fresh-IsFresh, refl), packets-IsSpare n)

-- Two endpoints, one of which the local endpoint does not list.
abbrev served : Endpoint
served = record {
  local = add_local;
  remotes = 9 ∷ [];
  heap = λ q.
      if leb 9 q
      then some (record { packet_pool = replicate 16 packet; received_result = none })
      else none;
}

destroy_local_lem_example :
    (e' : Endpoint) × (destroy_local served ≡ ok e')
    × (e'.local.items ≡ [])
    × (e'.remotes ≡ [])
    × ((p : ℕ) → e'.local.heap p ≡ others 1 (add_local.heap p))
    × ((q : ℕ) → e'.heap q ≡ kept (9 ∷ []) served.heap q)
unfolding lookup
destroy_local_lem_example =
    destroy_local_lem served add_local-IsRegistry (refl, tt) (refl, tt)
      ((_, refl, record { spare = packets-IsSpare 16; all = refl; no_result = refl }), tt)
