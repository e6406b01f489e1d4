-- ===== src/Address/Names.antt =====
-- The names of hosts and paths in yuyu/address.cc.
use yuyu.Http.{Text, c_str}
use yuyu.Http.Params.RoundTrip.{Lacks, split_at-found, split_at-nowhere}
use yuyu.Address.{UnixAddress, split_host, new_unix_address, get_path}
use yuyu.Common.{
  ℕ, ◌+◌, ◌≤◌, ◌≡◌, refl, false, none, some, [], ◌∷◌, ◌++◌, arith, ◌==◌, length, take,
  length-append, take_all,
}

-- `Lookup` takes a host without a colon and a port apart at the colon, and an IPv6 address in
-- brackets with a port at the closing bracket. A bare address with two colons or more is looked up
-- as a whole, but with everything from its first colon on as the service.
pub split_host-lem :
    (c : ℕ) (name port : Text)
    → (Lacks 58 (c ∷ name)
        → Lacks 58 port
        → (c == 91) ≡ false
        → split_host ((c ∷ name) ++ (58 ∷ port)) ≡ (c ∷ name, some port))
      × (Lacks 93 (c ∷ name)
          → split_host (91 ∷ ((c ∷ name) ++ (93 ∷ 58 ∷ port))) ≡ (c ∷ name, some port))
      × ((more : Text)
          → Lacks 58 (c ∷ name)
          → Lacks 58 port
          → (c == 91) ≡ false
          → split_host ((c ∷ name) ++ (58 ∷ (port ++ (58 ∷ more))))
            ≡ ((c ∷ name) ++ (58 ∷ (port ++ (58 ∷ more))), some (58 ∷ (port ++ (58 ∷ more)))))
unfolding split_host
split_host-lem c name port = (
  λ n p b. ground (arith, split_at-found 58 (c ∷ name) port n, split_at-nowhere 58 port p),
  λ n. ground (arith, split_at-found 93 (c ∷ name) (58 ∷ port) n),
  λ more n p b.
      ground (
        arith,
        split_at-found 58 (c ∷ name) (port ++ (58 ∷ more)) n,
        split_at-found 58 port more p,
      ),
)

c_str-found : (path more : Text) → Lacks 0 path → c_str (path ++ (0 ∷ more)) ≡ path
c_str-found [] more h = refl
c_str-found (c ∷ path) more h = ground (arith, c_str-found path more h.1)

-- A path of 1 to 107 bytes without a zero byte makes an address that gives the path back; one of
-- 108 bytes or more makes an exception.
pub get_path-new_unix_address :
    (c : ℕ) (path : Text)
    → Lacks 0 (c ∷ path)
    → (length path ≤ 106
        → (a : UnixAddress) × (new_unix_address (c ∷ path) ≡ some a) × (get_path a ≡ c ∷ path))
      × (107 ≤ length path → new_unix_address (c ∷ path) ≡ none)
unfolding new_unix_address get_path
get_path-new_unix_address c path h =
    let whole : take (length (c ∷ path) + 1) ((c ∷ path) ++ (0 ∷ [])) ≡ (c ∷ path) ++ (0 ∷ []) =
      take_all (length (c ∷ path) + 1) ((c ∷ path) ++ (0 ∷ []))
        (omega (arith, length-append (c ∷ path) (0 ∷ []))) in
    (
      λ fits. (
        record {
          sun_path = take (length (c ∷ path) + 1) ((c ∷ path) ++ (0 ∷ []));
          length_ = length (c ∷ path) + 1 + 2;
        },
        ground arith,
        ground (arith, whole, c_str-found (c ∷ path) [] h),
      ),
      λ long. ground arith,
    )
