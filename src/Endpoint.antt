-- ===== src/Endpoint.antt =====
-- `endpoint_t`, the `sockaddr_in` of src/udpsocket.h, its bytes in memory, and `is_same_network`.
-- Port and address are kept as the code keeps them, in network order.
use libov.Prelude.{
  ℕ, List, ◌++◌, ◌%◌, ◌^◌, ◌<◌, ◌≡◌, refl, Bool, not, ◌&&◌, ◌==◌, length, slice, le_bytes, le_value,
  le_value-le_bytes,
}

pub record Endpoint : Type 0 where
  pub sin_family : ℕ
  pub sin_port : ℕ
  pub s_addr : ℕ
  pub sin_zero : ℕ

abbrev pub zero_endpoint : Endpoint
zero_endpoint = record { sin_family = 0; sin_port = 0; s_addr = 0; sin_zero = 0 }

-- AF_INET and sizeof(endpoint_t).
abbrev pub af_inet : ℕ
af_inet = 2

abbrev pub endpoint_size : ℕ
endpoint_size = 16

-- `memcpy(&ep, data, sizeof(endpoint_t))`.
unfoldable pub load_endpoint : List ℕ → Endpoint
load_endpoint m = record {
  sin_family = le_value (slice 0 2 m);
  sin_port = le_value (slice 2 2 m);
  s_addr = le_value (slice 4 4 m);
  sin_zero = le_value (slice 8 8 m);
}

-- `(const char*)(&ep)`.
unfoldable pub store_endpoint : Endpoint → List ℕ
store_endpoint e =
    le_bytes 2 e.sin_family
    ++ (le_bytes 2 e.sin_port ++ (le_bytes 4 e.s_addr ++ le_bytes 8 e.sin_zero))

-- `x & 0xffffff`.
abbrev low24 : ℕ → ℕ
low24 x = x % 2 ^ 24

unfoldable pub is_same_network : Endpoint → Endpoint → Bool
is_same_network a b =
    low24 a.s_addr == low24 b.s_addr && (not (a.s_addr == 0) && not (b.s_addr == 0))

-- The fields fit their types.
pub record IsEndpoint (e : Endpoint) : Type 0 where
  pub family : e.sin_family < 2 ^ 16
  pub port : e.sin_port < 2 ^ 16
  pub addr : e.s_addr < 2 ^ 32
  pub pad : e.sin_zero < 2 ^ 64

pub length-store_endpoint : (e : Endpoint) → length (store_endpoint e) ≡ endpoint_size
unfolding store_endpoint le_bytes
length-store_endpoint e = refl

-- An endpoint that is copied into a message and out of it again is unchanged.
pub load-store_endpoint : (e : Endpoint) → IsEndpoint e → load_endpoint (store_endpoint e) ≡ e
unfolding load_endpoint store_endpoint le_bytes
load-store_endpoint e v = λ i. record {
  sin_family = le_value-le_bytes 2 e.sin_family v.family i;
  sin_port = le_value-le_bytes 2 e.sin_port v.port i;
  s_addr = le_value-le_bytes 4 e.s_addr v.addr i;
  sin_zero = le_value-le_bytes 8 e.sin_zero v.pad i;
}
