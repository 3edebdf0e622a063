-- ===== src/Utils/Hash.antt =====
-- utils/numeric_util.cc, StrHashUint64, and GetPartitionId of service/router/space_connection.h.
-- `hash` is `std::hash<std::string>`, which the C++ standard leaves to its implementation.
use sim_search.Prelude.{ℕ, ◌-◌, ◌%◌, ◌<◌, ltb, if◌then◌else◌, Str, arith}

module _ (hash : Str → ℕ) where
  -- The 64-bit hash is read as an `int64_t`, and `std::abs` removes its sign.
  unfoldable pub str_hash_uint64 : Str → ℕ
  str_hash_uint64 str =
      let h = hash str % 0x1_0000_0000_0000_0000 in
      if ltb h 0x8000_0000_0000_0000 then h else 0x1_0000_0000_0000_0000 - h

  -- With no partition the source divides by zero, and the model gives some number; the master refuses
  -- to make such a space.
  unfoldable pub get_partition_id : Str → ℕ → ℕ
  get_partition_id key partition_num = (str_hash_uint64 key % partition_num) % 0x1_0000_0000

  pub get_partition_id-lt :
      (key : Str) (partition_num : ℕ)
      → 0 < partition_num
      → get_partition_id key partition_num < partition_num
  unfolding get_partition_id
  get_partition_id-lt key partition_num h = grind arith
