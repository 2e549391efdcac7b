-- ===== src/Msgpack/Lua/Args.antt =====
-- `pack` and `unpack` of msgpack.cpp: the arguments of a call, from and to the Lua stack.
use gb_server.Base.{
  leb, if◌then◌else◌, lt→ltb, lt→leb_false, Bool-cases, length, length-append, ℕ, zero, suc, ◌+◌,
  ◌*◌, ◌≤◌, ◌<◌, ◌≡◌, refl, ap, ◌∙◌, inl, inr, true, false, Option, none, some, List, [], ◌∷◌, ◌++◌,
  append-nil, arith,
}
use gb_server.Msgpack.Integers.{pack_int64-cases}
use gb_server.Msgpack.Lua.Plain.{Plain, depth}
use gb_server.Msgpack.Lua.Read.{Vm, kind, unpack_stack_proxy}
use gb_server.Msgpack.Lua.RoundTrip.{unpack_stack_proxy-pack_stack_proxy}
use gb_server.Msgpack.Lua.Scalars.{vm, pack_string_short, pack_string_str8}
use gb_server.Msgpack.Lua.Values.{
  Machine, LuaValue, lua_nil, boolean, integer, number, text, lua_table, userdata, other, pack_bool,
  pack_whole, pack_double, pack_stack_proxy,
}
use gb_server.Msgpack.Numbers.{at}
use gb_server.Msgpack.Unpack.{UnpackErrorType, e_none, e_out_range, empty}

-- `pack` of the arguments of a call.
abbrev pub pack : Machine → List LuaValue → List ℕ
pack m [] = []
pack m (v ∷ vs) = pack_stack_proxy m v ++ pack m vs

-- What the loop of `unpack` has come to, after how many rounds: its end, the end of the fuel with
-- bytes still to read, or a value that is read to no result.
pub data Round : Type 0 where
  finished unfinished : ℕ → Vm → Round
  no_result : Round

count_round : Option Vm → (Vm → Round) → Round
count_round none next = no_result
count_round (some s) next = next s

-- The loop of `unpack`, with fuel for its rounds; `i` counts them.
unfoldable pub unpack_loop : Machine → ℕ → ℕ → ℕ → Vm → Round
unfolding count_round
unpack_loop m levels zero i s = unfinished i s
unpack_loop m levels (suc fuel) i s =
    if empty s.unpacker
    then finished i s
    else count_round (unpack_stack_proxy m levels s) (λ s'. unpack_loop m levels fuel (i + 1) s')

-- The `i` values on the top of the stack, the lowest first.
abbrev pub top_values : ℕ → List LuaValue → List LuaValue → List LuaValue
top_values zero stack acc = acc
top_values (suc i) [] acc = acc
top_values (suc i) (v ∷ stack) acc = top_values i stack (v ∷ acc)

abbrev arguments : Round → Option (List LuaValue × UnpackErrorType)
arguments (unfinished i s) = none
arguments no_result = none
arguments (finished i s) = some (top_values i s.stack [], s.unpacker.ec)

unfoldable pub unpack :
    Machine → ℕ → ℕ → List ℕ → List LuaValue → Option (List LuaValue × UnpackErrorType)
unpack m levels fuel bytes stack = arguments (unpack_loop m levels fuel 0 (vm bytes e_none stack))

abbrev pub AllPlain : Machine → ℕ → List LuaValue → Type 0
AllPlain m levels [] = Unit {0}
AllPlain m levels (v ∷ vs) = Plain m v × (depth v ≤ levels) × AllPlain m levels vs

abbrev push_all : List LuaValue → List LuaValue → List LuaValue
push_all [] stack = stack
push_all (v ∷ vs) stack = push_all vs (v ∷ stack)

top_values-push_all :
    (vs stack acc : List LuaValue) (k : ℕ)
    → top_values (length vs + k) (push_all vs stack) acc ≡ top_values k stack (vs ++ acc)
top_values-push_all [] stack acc k = ap (λ t. top_values t stack acc) (omega arith)
top_values-push_all (v ∷ vs) stack acc k =
    let shift : length (v ∷ vs) + k ≡ length vs + suc k = omega arith in
    rw shift (top_values-push_all vs (v ∷ stack) acc (suc k))

abbrev IsLong : List ℕ → Type 0
IsLong bytes = 0 < length bytes

pack_stack_proxy-IsLong : (m : Machine) (v : LuaValue) → Plain m v → IsLong (pack_stack_proxy m v)
unfolding pack_stack_proxy pack_bool pack_double pack_whole
pack_stack_proxy-IsLong m lua_nil p = omega arith
pack_stack_proxy-IsLong m (boolean true) p = omega arith
pack_stack_proxy-IsLong m (boolean false) p = omega arith
pack_stack_proxy-IsLong m (integer v) (r, _) =
    pack_int64-cases (λ bytes _. IsLong bytes) (λ n k. omega arith) (λ n k. omega arith)
      (λ n k. omega arith) (λ n k. omega arith) (λ n k. omega arith) (λ n k. omega arith) v r
pack_stack_proxy-IsLong m (number d) (w, l) = rw w (omega arith)
pack_stack_proxy-IsLong m (text s) l = elim (Bool-cases (leb (length s) 31)) [
  | inl small ↦ rw (pack_string_short s small) (omega arith)
  | inr large ↦ rw (pack_string_str8 s large l) (omega arith)
]
pack_stack_proxy-IsLong m (lua_table fs) p = omega arith
pack_stack_proxy-IsLong m (userdata bytes) p = elim p [ ]
pack_stack_proxy-IsLong m other p = elim p [ ]

not_empty :
    (bytes bs : List ℕ) (e : UnpackErrorType) → IsLong bytes → empty (at (bytes ++ bs) e) ≡ false
unfolding empty
not_empty bytes bs e h =
    lt→leb_false (length (bytes ++ bs)) 0 (omega (arith, length-append bytes bs))

unpack_loop-pack :
    (m : Machine) (levels fuel i : ℕ) (vs : List LuaValue) (e : UnpackErrorType)
    (stack : List LuaValue)
    → length vs < fuel
    → length stack + length vs + 2 * levels ≤ m.slots
    → AllPlain m levels vs
    → unpack_loop m levels fuel i (vm (pack m vs) e stack)
      ≡ finished (i + length vs) (vm [] e (push_all vs stack))
unfolding unpack_loop empty
unpack_loop-pack m levels zero i vs e stack h r p =
    let no_round : ⊥ = omega arith in elim no_round [ ]
unpack_loop-pack m levels (suc fuel) i [] e stack h r p =
    ap (λ k. finished k (vm [] e stack)) (omega arith)
unpack_loop-pack m levels (suc fuel) i (v ∷ vs) e stack h r (p, d, ps) =
    rw
      (
        not_empty (pack_stack_proxy m v) (pack m vs) e (pack_stack_proxy-IsLong m v p),
        unpack_stack_proxy-pack_stack_proxy m v levels (pack m vs) e stack d (omega arith) p,
        unpack_loop-pack m levels fuel (i + 1) vs e (v ∷ stack) (omega arith) (omega arith) ps,
      )
      (ap (λ k. finished k (vm [] e (push_all vs (v ∷ stack)))) (omega arith))

-- Arguments that keep their form in msgpack come back from `unpack` as they went into `pack`: the
-- same number, in the same order, without an error, whatever is on the stack below. One round for
-- each and one to see the end are enough, and as many nested calls as the deepest argument needs. The
-- stack has a slot left for each argument and two more for each level of nesting.
pub unpack-pack :
    (m : Machine) (levels fuel : ℕ) (vs stack : List LuaValue)
    → length vs < fuel
    → length stack + length vs + 2 * levels ≤ m.slots
    → AllPlain m levels vs
    → unpack m levels fuel (pack m vs) stack ≡ some (vs, e_none)
unfolding unpack
unpack-pack m levels fuel vs stack h r p =
    let count : top_values (0 + length vs) (push_all vs stack) [] ≡ vs =
      ap (λ k. top_values k (push_all vs stack) []) (omega arith)
      ∙ top_values-push_all vs stack [] 0
      ∙ append-nil vs in
    rw (unpack_loop-pack m levels fuel 0 vs e_none stack h r p) (ap (λ l. some (l, e_none)) count)

unknown_round :
    (m : Machine) (levels : ℕ) (bs : List ℕ) (e : UnpackErrorType) (stack : List LuaValue)
    → length stack < m.slots
    → unpack_stack_proxy m (suc levels) (vm (0xc1 ∷ bs) e stack)
      ≡ some (vm (0xc1 ∷ bs) e_out_range stack)
unfolding unpack_stack_proxy kind
unknown_round m levels bs e stack r = rw (lt→ltb (length stack) m.slots r) refl

-- The byte 0xc1 is the code of no format, and is never passed: where the bytes to unpack begin with
-- it, and the stack is not full, the loop of `unpack` does not end. After any number of rounds it
-- stands before the same bytes, with the same stack, and goes on.
pub unpack_loop-unknown :
    (m : Machine) (levels fuel i : ℕ) (bs : List ℕ) (e : UnpackErrorType) (stack : List LuaValue)
    → length stack < m.slots
    → (e' : UnpackErrorType) × (unpack_loop m (suc levels) fuel i (vm (0xc1 ∷ bs) e stack)
        ≡ unfinished (i + fuel) (vm (0xc1 ∷ bs) e' stack))
unfolding unpack_loop empty
unpack_loop-unknown m levels zero i bs e stack r =
    (e, ap (λ k. unfinished k (vm (0xc1 ∷ bs) e stack)) (omega arith))
unpack_loop-unknown m levels (suc fuel) i bs e stack r =
    let again = unpack_loop-unknown m levels fuel (i + 1) bs e_out_range stack r in
    (
      again.0,
      rw
          (
            lt→leb_false (length (0xc1 ∷ bs)) 0 (omega arith),
            unknown_round m levels bs e stack r,
            again.1,
          )
          (ap (λ k. unfinished k (vm (0xc1 ∷ bs) again.0 stack)) (omega arith)),
    )
