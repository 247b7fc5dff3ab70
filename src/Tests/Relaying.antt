-- ===== src/Tests/Relaying.antt =====
-- A relay over a transport that takes three bytes of a buffer at a time.
use spind.Prelude.{Bytes, [], arith, false, length, min, none, refl, take, ◌++◌, ◌<◌, ◌∷◌, ◌≡◌}
use spind.Relay.Frame.{header}
use spind.Relay.Writer.{Writer, IsReliable}
use spind.Relay.Pump.{
  Source, chunk, last, end_of_file, Conn, copy_local_to_framed, copy_framed_to_local,
}
use spind.Relay.Streams.{payload, stream}
use spind.Relay.Transparent.{relay_transparent}
use spind.Relay.Cut.{CutShort, copy_framed_to_local_cut}

abbrev slow : Writer
slow = record {
  W = Bytes;
  write = λ w b. record {
    count = min 3 (length b);
    failed = false;
    next = w ++ take (min 3 (length b)) b;
  };
  sent = λ w. w;
  count_le = λ w b. omega arith;
  sent_write = λ w b. refl;
}

abbrev slow_conn : Conn
slow_conn = record { writer = slow; close_write = λ w. (none, w) }

slow-IsReliable : IsReliable slow
slow-IsReliable = record { succeeds = λ w b. refl; progress = λ w c b. omega arith }

-- two reads, the second with the end of the file
abbrev reads : Source
reads = chunk (1 ∷ 2 ∷ 3 ∷ 4 ∷ 5 ∷ []) (last (6 ∷ []) end_of_file)

relay_transparent_example :
    ((copy_local_to_framed slow reads []).0 ≡ none)
    × ((v' : Bytes) × (copy_framed_to_local slow_conn (copy_local_to_framed slow reads []).1 []
          ≡ (none, v'))
        × (v' ≡ 1 ∷ 2 ∷ 3 ∷ 4 ∷ 5 ∷ 6 ∷ []))
relay_transparent_example =
    relay_transparent slow slow_conn slow-IsReliable slow-IsReliable reads [] [] refl
      (omega arith, omega arith) tt

short : 12 < length (stream reads)
unfolding header
short = omega arith

copy_framed_to_local_cut_example :
    CutShort slow_conn slow-IsReliable []
      (payload reads)
      (copy_framed_to_local slow_conn (take 12 (stream reads)) [])
copy_framed_to_local_cut_example =
    copy_framed_to_local_cut slow_conn slow-IsReliable 12 reads [] (omega arith, omega arith) short
