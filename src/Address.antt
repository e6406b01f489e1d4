-- ===== src/Address.antt =====
-- The addresses of yuyu/address.cc. An IPv4 address is the number that its bytes in network order
-- stand for, and an IPv6 address the list of its sixteen bytes, so `byteswapOnLittleEndian` does not
-- show; a socket address is the list of its bytes where it is compared. The resolver and the
-- interfaces of the system are outside.
pub mod Masks
pub mod Comparing
pub mod Names
mod Tests
use yuyu.Common.Bits.{bit_and, bit_or}
use yuyu.Http.{Text, codes, c_str}
use yuyu.Http.Params.{split_at}
use yuyu.Http.Message.{decimal, is_text_empty}
use yuyu.Common.{
  ℕ, zero, suc, ◌+◌, ◌-◌, ◌/◌, ◌%◌, ◌^◌, Bool, true, false, ◌&&◌, ◌||◌, Option, none, some, List,
  [], ◌∷◌, ◌++◌, ltb, leb, ◌==◌, if◌then◌else◌, length, take, drop, replicate,
}

-- A pointer to a new address, a null pointer, or what C++ leaves undefined.
pub data Made {ℓ} (A : Type ℓ) : Type ℓ where
  made : A → Made A
  null_pointer : Made A
  undefined : Made A

-- CreateMask<uint32_t>: a shift by the width of an int or more is undefined. A shift into the sign
-- bit, for one bit, gives the least int, from which 1 is then taken, which is undefined as well.
unfoldable pub create_mask32 : ℕ → Option ℕ
create_mask32 bits = if ltb bits 2 || ltb 32 bits then none else some (2 ^ (32 - bits) - 1)

-- CreateMask<uint8_t>, for less than eight bits.
unfoldable pub create_mask8 : ℕ → ℕ
create_mask8 bits = 2 ^ (8 - bits) - 1

-- CountBytes: the number of rounds of the loop. It takes away the lowest one each time.
unfoldable pub count_loop : ℕ → ℕ → ℕ → ℕ
count_loop zero result value = result
count_loop (suc fuel) result value =
    let rest = count_loop fuel (suc result) (bit_and value (value - 1)) in
    if value == 0 then result else rest

unfoldable pub count_bytes : ℕ → ℕ
unfolding count_loop
count_bytes value = count_loop 32 0 value

pub record Ipv4Address : Type 0 where
  pub addr : ℕ  -- uint32_t
  pub port : ℕ  -- uint16_t

abbrev pub or_undefined : Option ℕ → (ℕ → Ipv4Address) → Made Ipv4Address
or_undefined none f = undefined
or_undefined (some mask) f = made (f mask)

unfoldable pub broadcast_address : ℕ → Ipv4Address → Made Ipv4Address
unfolding create_mask32
broadcast_address prefix_len a =
    if ltb 32 prefix_len
    then null_pointer
    else or_undefined (create_mask32 prefix_len) (λ mask. record a { addr = bit_or a.addr mask })

-- `networdAddress`
unfoldable pub network_address : ℕ → Ipv4Address → Made Ipv4Address
unfolding create_mask32
network_address prefix_len a =
    if ltb 32 prefix_len
    then null_pointer
    else or_undefined (create_mask32 prefix_len) (λ mask. record a { addr = bit_and a.addr mask })

-- The complement of a mask of 32 bits.
unfoldable pub subnet_mask : ℕ → Made Ipv4Address
unfolding create_mask32
subnet_mask prefix_len =
    or_undefined (create_mask32 prefix_len) (λ mask. record { addr = 2 ^ 32 - 1 - mask; port = 0 })

unfoldable pub insert_ipv4 : Ipv4Address → Text
insert_ipv4 a =
    decimal (bit_and (a.addr / 2 ^ 24) 0xff)
    ++ codes "."
    ++ decimal (bit_and (a.addr / 2 ^ 16) 0xff)
    ++ codes "."
    ++ decimal (bit_and (a.addr / 2 ^ 8) 0xff)
    ++ codes "."
    ++ decimal (bit_and a.addr 0xff)
    ++ codes ":"
    ++ decimal a.port

-- The loops over the bytes from an index on.
abbrev pub fill_from : ℕ → ℕ → List ℕ → List ℕ
fill_from i v [] = []
fill_from zero v (x ∷ xs) = v ∷ fill_from zero v xs
fill_from (suc i) v (x ∷ xs) = x ∷ fill_from i v xs

-- `bytes[i] = f(bytes[i])`
abbrev pub update : ℕ → (ℕ → ℕ) → List ℕ → List ℕ
update i f [] = []
update zero f (x ∷ xs) = f x ∷ xs
update (suc i) f (x ∷ xs) = x ∷ update i f xs

-- At a prefix length of 128 or more the index is out of the array.
unfoldable pub broadcast_address6 : ℕ → List ℕ → Made (List ℕ)
unfolding create_mask8
broadcast_address6 prefix_len bytes =
    if leb 128 prefix_len
    then undefined
    else made (
        fill_from (prefix_len / 8 + 1) 255
          (update (prefix_len / 8) (λ b. bit_or b (create_mask8 (prefix_len % 8))) bytes))

unfoldable pub network_address6 : ℕ → List ℕ → Made (List ℕ)
unfolding create_mask8
network_address6 prefix_len bytes =
    if leb 128 prefix_len
    then undefined
    else made (
        fill_from (prefix_len / 8 + 1) 0
          (update (prefix_len / 8) (λ b. bit_and b (create_mask8 (prefix_len % 8))) bytes))

unfoldable pub subnet_mask6 : ℕ → Made (List ℕ)
unfolding create_mask8
subnet_mask6 prefix_len =
    if leb 128 prefix_len
    then undefined
    else made (
        replicate (prefix_len / 8) 255
        ++ (255 - create_mask8 (prefix_len % 8)) ∷ replicate (15 - prefix_len / 8) 0)

-- `memcmp` of the bytes that both have.
pub data Compared : Type 0 where
  smaller equal greater : Compared

abbrev pub memcmp : List ℕ → List ℕ → Compared
memcmp [] t = equal
memcmp (c ∷ s) [] = equal
memcmp (c ∷ s) (d ∷ t) = if c == d then memcmp s t else if ltb c d then smaller else greater

-- `operator<`
unfoldable pub address_less : List ℕ → List ℕ → Bool
address_less lhs rhs = elim (memcmp lhs rhs) [
  | smaller ↦ true
  | greater ↦ false
  | equal ↦ ltb (length lhs) (length rhs)
]

abbrev pub is_equal : Compared → Bool
is_equal equal = true
is_equal _ = false

-- `operator==`
unfoldable pub address_eq : List ℕ → List ℕ → Bool
address_eq lhs rhs = (length lhs == length rhs) && is_equal (memcmp lhs rhs)

-- The head of `Lookup`: the node and the service that are looked up.
abbrev pub bracketed : Text → Option (Text × Option Text)
bracketed host = elim (split_at 93 host) [
  | none ↦ none
  | some (node, rest) ↦
      some (node, elim rest [ c ∷ service ↦ if c == 58 then some service else none | [] ↦ none ])
]

abbrev pub if_bracketed : Text → Text × Option Text
if_bracketed [] = ([], none)
if_bracketed (c ∷ host) =
    if c == 91 then elim (bracketed host) [ none ↦ ([], none) | some found ↦ found ] else ([], none)

-- A first colon, with a second one behind it or not; the pointer to it stays the service when there
-- is a second one.
abbrev pub by_colon : Text → Text × Option Text
by_colon host = elim (split_at 58 host) [
  | none ↦ ([], none)
  | some (node, service) ↦ elim (split_at 58 service) [
    | none ↦ (node, some service)
    | some _ ↦ ([], some (58 ∷ service))
  ]
]

abbrev pub or_whole : Text → Text × Option Text → Text × Option Text
or_whole host (node, service) = if is_text_empty node then (host, service) else (node, service)

unfoldable pub split_host : Text → Text × Option Text
split_host host =
    let (node, service) = if_bracketed host in
    if is_text_empty node then or_whole host (by_colon host) else (node, service)

-- The bytes of `sun_path` that are set, and the length of the address; `none` is the exception.
pub record UnixAddress : Type 0 where
  pub sun_path : Text
  pub length_ : ℕ

abbrev pub begins_with_zero : Text → Bool
begins_with_zero [] = false
begins_with_zero (c ∷ s) = c == 0

unfoldable pub new_unix_address : Text → Option UnixAddress
new_unix_address path =
    let size = if begins_with_zero path then length path else length path + 1 in
    if ltb 108 size
    then none
    else some (record { sun_path = take size (path ++ (0 ∷ [])); length_ = size + 2 })

-- `getPath`. The bytes of `sun_path` that are not set are zero.
unfoldable pub get_path : UnixAddress → Text
get_path a =
    if ltb 2 a.length_ && begins_with_zero a.sun_path
    then codes "\\0" ++ take (a.length_ - 2 - 1) (drop 1 a.sun_path)
    else c_str a.sun_path
