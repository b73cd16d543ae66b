-- ===== src/DBus/Query/Hash.antt =====
-- src/core/entity/dbus_query.cpp: `DBusObjectEndpoint::getHash`. The hashes of texts and of 32-bit
-- numbers are parameters, and so is what the memory of the variable holds into which the hashes of
-- the interfaces are combined.
use obmc_webapp.Prelude.{ℕ, ◌*◌, ◌%◌, ◌^◌, bit_xor, String, Option, none, some, List, [], ◌∷◌}
use obmc_webapp.Prelude.Integers.{ℤ}
use obmc_webapp.DBus.Query.{DbusObjectEndpoint}

-- what is hashed of the service
unfoldable pub service_text : Option String → String
service_text none = ""
service_text (some service) = service

-- a shift of a 64-bit number to the left
abbrev pub shifted : ℕ → ℕ → ℕ
shifted n by = n * 2 ^ by % 2 ^ 64

module _ (string_hash : String → ℕ) (int_hash : ℤ → ℕ) where
  unfoldable pub hash_interfaces : List String → ℕ → ℕ
  hash_interfaces [] hash = hash
  hash_interfaces (interface ∷ rest) hash =
      hash_interfaces rest (bit_xor hash (string_hash interface))

  unfoldable pub endpoint_hash : ℕ → DbusObjectEndpoint → ℕ
  endpoint_hash memory e =
      bit_xor
        (bit_xor (bit_xor (string_hash e.path) (shifted (hash_interfaces e.interfaces memory) 1))
          (shifted (int_hash e.depth) 2))
        (shifted (string_hash (service_text e.service)) 3)
