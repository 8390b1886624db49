-- ===== src/Fjall.antt =====
-- What the program relies on of fjall, the storage engine, inside one write transaction: a read
-- fails with an error, or gives what the keyspace holds, the transaction's own writes included.
use sepp.Prelude.{◌≡◌, Option, none, some, String, if◌then◌else◌}
use sepp.Std.Bytes.{Bytes, ◌=ᵇ◌}

pub record Fjall : Type 1 where
  pub Keyspace : Type 0
  -- What the keyspace holds, and the error, if any, that a read of the key meets.
  pub get : Keyspace → Bytes → Option Bytes
  pub read_error : Keyspace → Bytes → Option String
  pub insert : Keyspace → Bytes → Bytes → Keyspace
  pub remove : Keyspace → Bytes → Keyspace
  pub get-insert :
      (m : Keyspace) (k v j : Bytes) → get (insert m k v) j ≡ (if k =ᵇ j then some v else get m j)
  pub get-remove :
      (m : Keyspace) (k j : Bytes) → get (remove m k) j ≡ (if k =ᵇ j then none else get m j)
