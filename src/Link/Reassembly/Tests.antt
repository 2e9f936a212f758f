-- ===== src/Link/Reassembly/Tests.antt =====
-- A record of two fragments that come in reverse, and each theorem at an input that meets its
-- hypotheses.
use ot_security.Common.{ℕ_discrete, ◌≡◌, refl, [], arith, length, replicate}
use ot_security.Common.Bytes.{Bytes, be_bytes}
use ot_security.Common.Dict.{lookup, insert, erase, text_dec}
use ot_security.Link.Frame.{Frame, chunk_count}
use ot_security.Link.Frame.RoundTrip.{frame_of}
use ot_security.Link.Frame.Tests.{codec, sensor}
use ot_security.Link.Reassembly.{
  store, finish, make_room, slot, join, key_dec, Reassembler, add, expire, complete, completed,
}
use ot_security.Link.Reassembly.Records.{have_after, entry_of, Answers, add-fragment}
use ot_security.Link.Reassembly.Bounds.{IsReassembler, Returns, add-IsReassembler}
use ot_security.Link.Reassembly.Expiry.{Split, expire-Split}

abbrev empty : Reassembler
empty = record { max_pending = 4096; timeout_us = 2000000; pending = [] }

abbrev bytes : Bytes
bytes = replicate 1300 7

abbrev second : Frame
second = frame_of codec 1 sensor (be_bytes 16 7) 5 bytes 1

empty-IsReassembler : IsReassembler empty
empty-IsReassembler = record {
  room = omega arith;
  distinct = tt;
  bounded = omega arith;
  entries = tt;
}

two_chunks : chunk_count (length bytes) ≡ 2
unfolding chunk_count
two_chunks = refl

add-fragment_example :
    Answers codec 1 sensor
      (be_bytes 16 7)
      5
      bytes
      1
      empty
      100
      (have_after codec 1 sensor
        (be_bytes 16 7)
        5
        bytes
        1
        (entry_of codec 1 sensor (be_bytes 16 7) 5 bytes 1 empty 100))
      (add empty second 100)
unfolding lookup
add-fragment_example =
    add-fragment codec 1 sensor (be_bytes 16 7) 5 bytes 1 empty 100 tt (omega (arith, two_chunks))
      (omega (arith, two_chunks))

add-IsReassembler_example :
    IsReassembler (add empty second 100).state × Returns (add empty second 100).answer
add-IsReassembler_example =
    add-IsReassembler empty second 100 empty-IsReassembler (omega (arith, two_chunks))

expire-Split_example :
    let r = (add empty second 100).state in
    Split r.timeout_us 3000000 r.pending ((expire r 3000000).0.pending, (expire r 3000000).1)
unfolding add store finish make_room slot lookup insert chunk_count
expire-Split_example = expire-Split (add empty second 100).state 3000000 (tt, tt)

-- The second fragment comes first; the first one completes the record, which leaves the state.
abbrev first : Frame
first = frame_of codec 1 sensor (be_bytes 16 7) 5 bytes 0

in_reverse :
    (add (add empty second 100).state first 200).answer ≡ complete (completed first 200 bytes)
unfolding add store finish make_room slot join lookup insert erase chunk_count key_dec text_dec
    ℕ_discrete be_bytes
in_reverse = refl
