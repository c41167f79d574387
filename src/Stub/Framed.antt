-- ===== src/Stub/Framed.antt =====
-- What a client sees of the table of a server when messages travel in frames.
use amazon_dynamo_db.Prelude.{
  ◌+◌, ◌%◌, ◌^◌, ◌<◌, ◌≡◌, refl, ap, sym, ◌∙◌, Option, pos, some, none, Option-cases, arith,
  int_limit, length, take-length, if◌then◌else◌, inl, inr,
}
use amazon_dynamo_db.Memory.{ok, Memory, pure}
use amazon_dynamo_db.Memory.Spend.{
  IsAmple, IsAmple-spend, spend, malloc-IsAmple, free-spend, memcpy-all,
}
use amazon_dynamo_db.Strings.{Bytes}
use amazon_dynamo_db.Block.Laws.{block_of}
use amazon_dynamo_db.Entry.Laws.{entry_of}
use amazon_dynamo_db.Assoc.Finds.{is_some}
use amazon_dynamo_db.Table.Hash.{IsKey}
use amazon_dynamo_db.Table.Buckets.{Buckets, IsTable, table_of, view, put, total}
use amazon_dynamo_db.Table.Listing.{all_pairs}
use amazon_dynamo_db.Messages.{MessageT, StatisticsT}
use amazon_dynamo_db.Messages.Opcode
use amazon_dynamo_db.Skeleton.{error_message}
use amazon_dynamo_db.Skeleton.Replies.{done, invoke-put, invoke-get, value_reply}
use amazon_dynamo_db.Skeleton.Listing.{table_reply, invoke-gettable}
use amazon_dynamo_db.Network.{Codec}
use amazon_dynamo_db.Stub.{
  put_request, key_request, bare_request, rtable_put, put_entry, free_copy, code_of, rtable_get,
}
use amazon_dynamo_db.Stub.Listing.{rtable_get_table}
use amazon_dynamo_db.Stub.Server.{
  Server, running, handle, after_invoke, server_link, delivered, unpacked, handle_framed,
  framed_link,
}
use amazon_dynamo_db.Stub.Remote.{rtable_get-view}
use amazon_dynamo_db.Stub.Listing.Laws.{rtable_get_table-answer}

-- The message packs into at least one and less than 2^16 bytes, which the codec unpacks again.
pub record FitsFrame (codec : Codec) (msg : MessageT) : Type 0 where
  pub some_bytes : 0 < length (codec.pack msg)
  pub few_bytes : length (codec.pack msg) < 2 ^ 16
  pub lawful : codec.unpack (codec.pack msg) ≡ some msg

-- The reply to a get request, by what is stored.
abbrev pub get_reply : Option Bytes → MessageT
get_reply none = error_message
get_reply (some v) = value_reply v

module _ (codec : Codec) where
  unpacked-FitsFrame : (msg : MessageT) → FitsFrame codec msg → unpacked codec msg ≡ some msg
  unfolding unpacked
  unpacked-FitsFrame msg fits =
      let p = codec.pack msg in
      let size : length p % 2 ^ 16 ≡ length p = omega (arith, fits.few_bytes) in
      ground (arith, size, take-length p, fits.lawful)

  delivered-FitsFrame : (msg : MessageT) → FitsFrame codec msg → delivered codec msg ≡ some msg
  unfolding delivered
  delivered-FitsFrame msg fits =
      let p = codec.pack msg in
      let size : length p % 2 ^ 16 ≡ length p = omega (arith, fits.few_bytes) in
      ground (arith, size, fits.some_bytes, unpacked-FitsFrame msg fits)

  -- The request and the reply arrive.
  pub handle_framed-handle :
      (msg reply : MessageT) (s s' : Server)
      → FitsFrame codec msg
      → FitsFrame codec reply
      → handle msg s ≡ (some reply, s')
      → handle_framed codec msg s ≡ (some reply, s')
  unfolding handle_framed
  handle_framed-handle msg reply s s' request answer handled =
      rw (delivered-FitsFrame msg request, handled, unpacked-FitsFrame reply answer) refl

  module _ {bs : Buckets} (t : IsTable bs) (stats : StatisticsT) {m sm : Memory} (ample : IsAmple m)
      (server_ample : IsAmple sm) where
    -- rtable_put over frames to a server with a valid table returns 0, and the server then has the
    -- entry, when client and server are granted every request for memory, the key is hashable, the
    -- value is not empty, its length and one more than the entries fit an int, and request and
    -- reply each pack into at least one and less than 2^16 bytes that the codec unpacks again.
    pub rtable_put-framed_link :
        (k v : Bytes)
        → IsKey k
        → (0 < length v) × (length v < int_limit)
        → total bs + 1 < int_limit
        → FitsFrame codec (put_request k v)
        → FitsFrame codec (done (Opcode.put + 1))
        → rtable_put
            (some (framed_link codec))
            (some (entry_of (k, v)))
            (running stats (some (table_of bs)) sm)
            m
          ≡ ok (
            (
              pos 0,
              running stats
                  (some (table_of (put bs k v)))
                  (if is_some (view bs k) then spend 4 6 sm else spend 6 3 sm),
            ),
            spend 2 2 m,
          )
    unfolding rtable_put put_entry free_copy code_of
    rtable_put-framed_link k v key sized room request answer =
        let invoked =
          invoke-put t stats (put_request k v) server_ample k v (refl, refl) refl key sized room in
        let handled =
          handle_framed-handle (put_request k v) (done (Opcode.put + 1))
            (running stats (some (table_of bs)) sm) _ request answer
            (ap (after_invoke stats) invoked) in
        ground (
          arith,
          malloc-IsAmple (length k + 1) ample,
          malloc-IsAmple (length v) (IsAmple-spend 1 0 ample),
          memcpy-all (spend 2 0 m) v,
          handled,
          free-spend (spend 2 0 m),
          free-spend (spend 2 1 m),
        )

    handled_get :
        (k : Bytes)
        → IsKey k
        → FitsFrame codec (key_request Opcode.get k)
        → FitsFrame codec (get_reply (view bs k))
        → handle_framed codec (key_request Opcode.get k) (running stats (some (table_of bs)) sm)
          ≡ handle (key_request Opcode.get k) (running stats (some (table_of bs)) sm)
    handled_get k key request answer =
        let invoked = invoke-get t stats (key_request Opcode.get k) server_ample (refl, refl) key in
        elim (Option-cases (view bs k)) [
          | inl gone ↦
              let reply : FitsFrame codec error_message = rw gone at answer in
              let here : handle (key_request Opcode.get k) (running stats (some (table_of bs)) sm)
                  ≡ (some error_message, running stats (some (table_of bs)) sm) =
                ground (arith, invoked, gone) in
              handle_framed-handle (key_request Opcode.get k) error_message _ _ request reply here
              ∙ sym here
          | inr (v, there) ↦
              let reply : FitsFrame codec (value_reply v) = rw there at answer in
              let here : handle (key_request Opcode.get k) (running stats (some (table_of bs)) sm)
                  ≡ (some (value_reply v), running stats (some (table_of bs)) (spend 3 2 sm)) =
                ground (arith, invoked, there) in
              handle_framed-handle (key_request Opcode.get k) (value_reply v) _ _ request reply here
              ∙ sym here
        ]

    same_get :
        (k : Bytes)
        → handle_framed codec (key_request Opcode.get k) (running stats (some (table_of bs)) sm)
          ≡ handle (key_request Opcode.get k) (running stats (some (table_of bs)) sm)
        → rtable_get (some (framed_link codec)) (some k) (running stats (some (table_of bs)) sm) m
          ≡ rtable_get (some server_link) (some k) (running stats (some (table_of bs)) sm) m
    unfolding rtable_get
    same_get k e = rw e refl

    -- rtable_get over frames from a server with a valid table returns a copy of what the server has
    -- under a hashable key, and NULL without it, when client and server are granted every request
    -- for memory, an int counts the bytes of the value, and request and reply each pack into at
    -- least one and less than 2^16 bytes that the codec unpacks again.
    pub rtable_get-framed_link :
        (k : Bytes)
        → IsKey k
        → ((v : Bytes) → view bs k ≡ some v → length v < int_limit)
        → FitsFrame codec (key_request Opcode.get k)
        → FitsFrame codec (get_reply (view bs k))
        → rtable_get (some (framed_link codec)) (some k) (running stats (some (table_of bs)) sm) m
          ≡ (elim (view bs k) [
            | none ↦ ok ((none, running stats (some (table_of bs)) sm), spend 1 1 m)
            | some v ↦ ok (
              (some (block_of v), running stats (some (table_of bs)) (spend 3 2 sm)),
              spend 5 3 m,
            )
          ])
    rtable_get-framed_link k key short request answer =
        same_get k (handled_get k key request answer)
        ∙ rtable_get-view t stats ample server_ample k key short

    -- The answer to a request for the table arrives whole.
    pub rtable_get_table-framed_link :
        total bs + 1 < int_limit
        → FitsFrame codec (bare_request Opcode.gettable)
        → FitsFrame codec (table_reply (all_pairs bs))
        → rtable_get_table (some (framed_link codec)) (running stats (some (table_of bs)) sm) m
          ≡ rtable_get_table (some server_link) (running stats (some (table_of bs)) sm) m
    rtable_get_table-framed_link room request answer =
        let invoked =
          invoke-gettable t stats (bare_request Opcode.gettable) server_ample (refl, refl) room in
        let here = ap (after_invoke stats) invoked in
        let handled =
          handle_framed-handle (bare_request Opcode.gettable) (table_reply (all_pairs bs))
            (running stats (some (table_of bs)) sm) _ request answer here in
        rtable_get_table-answer (framed_link codec) server_link
          (running stats (some (table_of bs)) sm) m (ap pure (handled ∙ sym here))
