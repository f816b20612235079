-- ===== src/Examples/Digest.antt =====
-- SHA1 on concrete data.
use peer_to_peer_distributed.Base.{◌≡◌, refl, [], ◌∷◌, arith}
use peer_to_peer_distributed.Text.{Str}
use peer_to_peer_distributed.Examples.{alice, bob}
use peer_to_peer_distributed.Sha1.{Sha1, reset, update, transform, hash_buffer}
use peer_to_peer_distributed.Sha1.Streaming.{absorb_all, with_bits, count_bits, update-absorb_all}

abbrev one_byte : Sha1
one_byte = record reset { buf = alice; total_bits = 8 }

update-absorb_all_example :
    update bob one_byte ≡ with_bits (count_bits one_byte.total_bits bob) (absorb_all bob one_byte)
update-absorb_all_example = update-absorb_all bob one_byte (omega arith)

abbrev abc : Str
abc = 97 ∷ 98 ∷ 99 ∷ []

-- a9993e364706816aba3e25717850c26c9cd0d89d
hash_buffer_test :
    hash_buffer abc
    ≡ 97 ∷ 57 ∷ 57 ∷ 57 ∷ 51 ∷ 101 ∷ 51 ∷ 54 ∷ 52 ∷ 55 ∷ 48 ∷ 54 ∷ 56 ∷ 49 ∷ 54 ∷ 97 ∷ 98 ∷ 97 ∷ 51
      ∷ 101 ∷ 50 ∷ 53 ∷ 55 ∷ 49 ∷ 55 ∷ 56 ∷ 53 ∷ 48 ∷ 99 ∷ 50 ∷ 54 ∷ 99 ∷ 57 ∷ 99 ∷ 100 ∷ 48 ∷ 100
      ∷ 56 ∷ 57 ∷ 100 ∷ []
unfolding hash_buffer transform
hash_buffer_test = refl
