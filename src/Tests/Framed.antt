-- ===== src/Tests/Framed.antt =====
-- Requests and copies over frames.
use amazon_dynamo_db.Prelude.{
  ◌+◌, ◌==◌, ◌≡◌, refl, pos, Option, some, if◌then◌else◌, [], ◌∷◌, arith, get_or,
}
use amazon_dynamo_db.Memory.{ok}
use amazon_dynamo_db.Memory.Spend.{spend}
use amazon_dynamo_db.Strings.{Bytes, strcmp}
use amazon_dynamo_db.Block.Laws.{block_of}
use amazon_dynamo_db.Entry.Laws.{entry_of}
use amazon_dynamo_db.Assoc.{find, insert}
use amazon_dynamo_db.Table.Hash.{home, char_sum}
use amazon_dynamo_db.Table.Buckets.{table_of, view, put, total}
use amazon_dynamo_db.Table.Listing.{all_pairs}
use amazon_dynamo_db.Messages.{MessageT}
use amazon_dynamo_db.Messages.Opcode
use amazon_dynamo_db.Skeleton.Replies.{done}
use amazon_dynamo_db.Skeleton.Listing.{table_reply}
use amazon_dynamo_db.Skeleton.Stats.Laws.{counts}
use amazon_dynamo_db.Network.{Codec}
use amazon_dynamo_db.Stub.{put_request, key_request, bare_request, rtable_put, rtable_get}
use amazon_dynamo_db.Stub.Server.{running, framed_link}
use amazon_dynamo_db.Stub.Framed.{get_reply, rtable_put-framed_link, rtable_get-framed_link}
use amazon_dynamo_db.Replica.Copy.{Replicates, copy_previous-framed_link}
use amazon_dynamo_db.Tests.Clients.{busy, server, stored_short}
use amazon_dynamo_db.Tests.Fixtures.{
  plenty, plenty-IsAmple, key_a, key_b, seven, key_a-IsKey, key_b-IsKey, stocked, stocked-IsTable,
}

-- A packing of two messages, by their opcodes.
unpack_two : MessageT → MessageT → Bytes → Option MessageT
unpack_two request reply bytes =
    some (if get_or bytes 0 0 == request.opcode then request else reply)

abbrev two_only : MessageT → MessageT → Codec
two_only request reply = record { pack = λ msg. msg.opcode ∷ []; unpack = unpack_two request reply }

abbrev put_codec : Codec
put_codec = two_only (put_request key_b seven) (done (Opcode.put + 1))

rtable_put-framed_link_example :
    rtable_put (some (framed_link put_codec)) (some (entry_of (key_b, seven))) server plenty
    ≡ ok (
      (pos 0, running busy (some (table_of (put stocked key_b seven))) (spend 6 3 plenty)),
      spend 2 2 plenty,
    )
unfolding home char_sum insert find strcmp total unpack_two
rtable_put-framed_link_example =
    rtable_put-framed_link put_codec stocked-IsTable busy plenty-IsAmple plenty-IsAmple key_b seven
      key_b-IsKey (omega arith, omega arith) (omega arith)
      (record { some_bytes = omega arith; few_bytes = omega arith; lawful = refl })
      (record { some_bytes = omega arith; few_bytes = omega arith; lawful = refl })

abbrev get_codec : Codec
get_codec = two_only (key_request Opcode.get key_a) (get_reply (view stocked key_a))

rtable_get-framed_link_example :
    rtable_get (some (framed_link get_codec)) (some key_a) server plenty
    ≡ ok (
      (some (block_of seven), running busy (some (table_of stocked)) (spend 3 2 plenty)),
      spend 5 3 plenty,
    )
unfolding home char_sum insert find strcmp unpack_two
rtable_get-framed_link_example =
    rtable_get-framed_link get_codec stocked-IsTable busy plenty-IsAmple plenty-IsAmple key_a
      key_a-IsKey stored_short
      (record { some_bytes = omega arith; few_bytes = omega arith; lawful = refl })
      (record { some_bytes = omega arith; few_bytes = omega arith; lawful = refl })

abbrev table_codec : Codec
table_codec = two_only (bare_request Opcode.gettable) (table_reply (all_pairs stocked))

copy_previous-framed_link_example :
    Replicates (framed_link table_codec) 3 stocked (counts 3 5 1) plenty plenty
unfolding home char_sum insert find strcmp total all_pairs unpack_two
copy_previous-framed_link_example =
    copy_previous-framed_link table_codec 2 stocked-IsTable (counts 3 5 1) plenty-IsAmple
      plenty-IsAmple (omega arith) (omega arith, tt)
      (record { some_bytes = omega arith; few_bytes = omega arith; lawful = refl })
      (record { some_bytes = omega arith; few_bytes = omega arith; lawful = refl })
