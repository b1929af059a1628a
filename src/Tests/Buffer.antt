-- ===== src/Tests/Buffer.antt =====
-- The theorems on src/yc-buffer.c at concrete buffers.
use yapara_c.Prelude.{true, false, [], ◌∷◌, ◌++◌, none, some, ◌≡◌, refl, arith}
use yapara_c.Prelude.Loop.{ok}
use yapara_c.Buffer.Defs.{Buffer, Pool, append, read}
use yapara_c.Buffer.Transfer.{transfer_max}
use yapara_c.Buffer.Content.Transfer.{TransfersTo, transfer_max_lem}
use yapara_c.Buffer.Content.{content, IsValid}
use yapara_c.Buffer.Content.Read.{read_lem}
use yapara_c.Buffer.Content.Append.{append_lem}

-- Two fragments, the first partly read: the bytes 7 8, then 10 9.
abbrev two_frags : Buffer
two_frags = record {
  size = 4;
  frags =
      record {
        bytes = 7 ∷ 8 ∷ [];
        buf_start = 1;
        buf_max_size = 3;
        is_foreign = false;
        destroy = none;
      }
      ∷ record {
        bytes = 10 ∷ 9 ∷ [];
        buf_start = 0;
        buf_max_size = 2;
        is_foreign = true;
        destroy = some 5;
      }
      ∷ [];
}

abbrev fresh_pool : Pool
fresh_pool = record { num_recycled = 0; destroyed = [] }

two_frags-IsValid : IsValid two_frags
two_frags-IsValid = record {
  chain = (λ q. cc, omega arith, (λ q. cc, omega arith, tt));
  size = refl;
}

append_lem_example :
    (b' : Buffer) × (pool' : Pool) × (append 3 (1 ∷ 2 ∷ 3 ∷ 4 ∷ []) two_frags fresh_pool
      ≡ ok (b', pool'))
    × (content b' ≡ content two_frags ++ (1 ∷ 2 ∷ 3 ∷ 4 ∷ []))
    × IsValid b'
append_lem_example =
    append_lem 3 (omega arith) (1 ∷ 2 ∷ 3 ∷ 4 ∷ []) two_frags fresh_pool two_frags-IsValid

read_lem_example :
    let (copied, b', pool') = read 3 two_frags fresh_pool in
    (copied ≡ 7 ∷ 8 ∷ 10 ∷ []) × (content b' ≡ 9 ∷ []) × IsValid b'
read_lem_example = read_lem 3 two_frags fresh_pool two_frags-IsValid

-- One fragment with room for two more bytes.
abbrev one_frag : Buffer
one_frag = record {
  size = 1;
  frags =
      record { bytes = 3 ∷ []; buf_start = 0; buf_max_size = 3; is_foreign = false; destroy = none }
      ∷ [];
}

one_frag-IsValid : IsValid one_frag
one_frag-IsValid = record { chain = (λ q. cc, omega arith, tt); size = refl }

transfer_max_lem_example :
    TransfersTo 4
      (omega arith)
      3
      one_frag
      two_frags
      (transfer_max 4 3 one_frag two_frags fresh_pool)
transfer_max_lem_example =
    transfer_max_lem 4 (omega arith) 3 one_frag two_frags fresh_pool one_frag-IsValid
      two_frags-IsValid
