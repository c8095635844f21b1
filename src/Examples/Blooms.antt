-- ===== src/Examples/Blooms.antt =====
-- A Bloom filter of 64 bits and 3 hashes, and one that Create makes.
use mini_kv_storage_engine.Base.{
  ◌<◌, ◌≤◌, ◌%◌, ◌*◌, ◌≡◌, true, refl, List, [], ◌∷◌, arith, replicate, All,
}
use mini_kv_storage_engine.Bytes.{Bytes}
use mini_kv_storage_engine.Config.{rate_is_invalid}
use mini_kv_storage_engine.Result.{ok, ◌>>=◌}
use mini_kv_storage_engine.Bloom.{
  BloomFilter, shape_is_valid, requested_bits, rounded_hashes, create, may_contain, encode_bloom,
  decode_bloom, maximum_bloom_size, maximum_bloom_hash_count,
}
use mini_kv_storage_engine.Bloom.Membership.{IsOpen, add_keys, add_keys-All}
use mini_kv_storage_engine.Bloom.RoundTrip.{IsFilter, decode-encode_bloom}
use mini_kv_storage_engine.Bloom.Created.{create-IsOpen}
use mini_kv_storage_engine.Examples.Floats.{integers, integers-IsLongDouble}

abbrev clear : BloomFilter
clear = record { bit_count = 64; key_count = 0; hash_count = 3; bits = replicate 8 0 }

abbrev keys : List Bytes
keys = (97 ∷ []) ∷ (98 ∷ 99 ∷ []) ∷ []

clear_shape : shape_is_valid clear ≡ true
unfolding shape_is_valid
clear_shape = refl

clear-IsOpen : IsOpen clear 2
clear-IsOpen = record { shape = clear_shape; some_bits = omega arith; has_room = omega arith }

add_keys-All_example : All (λ key. may_contain key (add_keys keys clear) ≡ true) keys
add_keys-All_example = add_keys-All keys clear clear-IsOpen

clear-IsFilter : IsFilter clear
clear-IsFilter = record { shape = clear_shape; count_fits = omega arith; bytes = omega arith }

decode-encode_bloom_example : (encode_bloom clear >>= decode_bloom) ≡ ok clear
decode-encode_bloom_example = decode-encode_bloom clear clear-IsFilter

abbrev created : BloomFilter
created = record { bit_count = 72; key_count = 0; hash_count = 7; bits = replicate 9 0 }

creates : create integers 10 0x3F847AE147AE147B ≡ ok created
unfolding create requested_bits rounded_hashes rate_is_invalid
creates = refl

create-IsOpen_example :
    IsOpen created 10
    × (64 ≤ 72)
    × (72 ≤ maximum_bloom_size * 8)
    × (created.bit_count % 8 ≡ 0)
    × (0 < 7)
    × (7 ≤ maximum_bloom_hash_count)
    × (created.key_count ≡ 0)
create-IsOpen_example =
    create-IsOpen integers integers-IsLongDouble 10 0x3F847AE147AE147B created (omega arith)
      (omega arith) creates
