-- ===== src/Skeleton/Replies.antt =====
-- The replies of `invoke` to well-formed requests, when every request for memory is granted.
use amazon_dynamo_db.Prelude.{
  ℕ, ◌+◌, ◌<◌, ◌≡◌, pos, minus_one, some, none, Option-cases, [], arith, int_limit, length,
  if◌then◌else◌, inl, inr, get_or,
}
use amazon_dynamo_db.Memory.{ok, Memory}
use amazon_dynamo_db.Memory.Spend.{
  IsAmple, IsAmple-spend, spend, malloc-IsAmple, free-spend, memcpy-all,
}
use amazon_dynamo_db.Strings.{Bytes}
use amazon_dynamo_db.Block.Laws.{block_destroy-spend, block_create-copy}
use amazon_dynamo_db.Assoc.Finds.{is_some}
use amazon_dynamo_db.Table.Hash.{home, IsKey}
use amazon_dynamo_db.Table.Buckets.{
  Buckets, IsTable, table_of, view, put, del, total, length-get_or-le,
}
use amazon_dynamo_db.Table.Refines.{table_get-view, table_remove-del, table_size-total}
use amazon_dynamo_db.Table.Put.{table_put-put}
use amazon_dynamo_db.Messages.{StatisticsT, MessageT, message_init}
use amazon_dynamo_db.Messages.Opcode
use amazon_dynamo_db.Messages.CType
use amazon_dynamo_db.Skeleton.{
  invoke, dispatch, when_type, msg_put, put_block, msg_get, get_block, msg_del, msg_size,
  int_of_size, error_message, message_error,
}

-- A message that carries an opcode and a content, and the fields of its kind.
abbrev pub IsRequest : MessageT → ℕ → ℕ → Type 0
IsRequest msg opcode c_type = (msg.opcode ≡ opcode) × (msg.c_type ≡ c_type)

-- A reply without content.
abbrev pub done : ℕ → MessageT
done opcode = record message_init { opcode = opcode; c_type = CType.none }

abbrev pub value_reply : Bytes → MessageT
value_reply v = record message_init { opcode = Opcode.get + 1; c_type = CType.value; value = v }

abbrev pub size_reply : ℕ → MessageT
size_reply n = record message_init {
  opcode = Opcode.size + 1;
  c_type = CType.result;
  result = pos n;
}

module _ {bs : Buckets} (t : IsTable bs) (stats : StatisticsT) (msg : MessageT) {m : Memory}
    (ample : IsAmple m) where
  -- A put request on a valid table is answered by OP_PUT + 1 and stores its entry; six blocks are
  -- granted and three freed for a new key, four and six for a replaced one, when malloc grants
  -- every request, the key is hashable, the value is not empty, and its length and one more than
  -- the entries fit an int.
  pub invoke-put :
      (k v : Bytes)
      → IsRequest msg Opcode.put CType.entry
      → msg.entry ≡ some (record { key = k; value = v })
      → IsKey k
      → (0 < length v) × (length v < int_limit)
      → total bs + 1 < int_limit
      → invoke stats (some msg) (some (table_of bs)) m
        ≡ ok (
          (pos 0, some (done (Opcode.put + 1)), some (table_of (put bs k v))),
          (if is_some (view bs k) then spend 4 6 m else spend 6 3 m),
        )
  unfolding invoke dispatch when_type msg_put put_block int_of_size
  invoke-put k v request entry key sized room =
      let created = block_create-copy ample v sized.0 in
      let small : length (get_or bs (home k (length bs)) []) + 1 < int_limit =
        omega (arith, length-get_or-le bs (home k (length bs))) in
      let stored = table_put-put t k key v (IsAmple-spend 1 0 ample) sized.0 small in
      ground (
        arith,
        request.0,
        request.1,
        entry,
        created,
        stored,
        block_destroy-spend v (spend 4 3 m),
        block_destroy-spend v (spend 6 0 m),
        free-spend (spend 4 5 m),
        free-spend (spend 6 2 m),
      )

  -- A get request on a valid table is answered by the bytes that are stored under its key, or by
  -- OP_ERROR when there are none, and leaves the table as it is, when malloc grants every request
  -- and the key is hashable.
  pub invoke-get :
      IsRequest msg Opcode.get CType.key
      → IsKey msg.key
      → invoke stats (some msg) (some (table_of bs)) m ≡ (elim (view bs msg.key) [
        | none ↦ ok ((minus_one, some error_message, some (table_of bs)), m)
        | some v ↦ ok ((pos 0, some (value_reply v), some (table_of bs)), spend 3 2 m)
      ])
  unfolding invoke dispatch when_type msg_get get_block message_error
  invoke-get request key =
      let read = table_get-view t msg.key key ample in
      elim (Option-cases (view bs msg.key)) [
        | inl gone ↦ ground (arith, request.0, request.1, read, gone)
        | inr (v, there) ↦ ground (
          arith,
          request.0,
          request.1,
          read,
          there,
          malloc-IsAmple (length v) (IsAmple-spend 2 0 ample),
          memcpy-all (spend 3 0 m) v,
          block_destroy-spend v (spend 3 0 m),
        )
      ]

  -- A del request of a hashable key on a valid table is answered by OP_DEL + 1, also if the key was
  -- not there, and the table is the one without the key, when malloc grants every request and the
  -- entries fit an int.
  pub invoke-del :
      IsRequest msg Opcode.del CType.key
      → IsKey msg.key
      → total bs < int_limit
      → invoke stats (some msg) (some (table_of bs)) m
        ≡ ok (
          (pos 0, some (done (Opcode.del + 1)), some (table_of (del bs msg.key))),
          spend 0 (if is_some (view bs msg.key) then 5 else 0) m,
        )
  unfolding invoke dispatch when_type msg_del
  invoke-del request key room =
      let small : length (get_or bs (home msg.key (length bs)) []) < int_limit =
        omega (arith, length-get_or-le bs (home msg.key (length bs))) in
      let removed = table_remove-del t msg.key key m small in
      ground (arith, request.0, request.1, removed)

  -- A size request on a valid table is answered by OP_SIZE + 1 with the number of entries, when
  -- malloc grants every request and that number fits an int.
  pub invoke-size :
      IsRequest msg Opcode.size CType.none
      → total bs < int_limit
      → invoke stats (some msg) (some (table_of bs)) m
        ≡ ok ((pos 0, some (size_reply (total bs)), some (table_of bs)), m)
  unfolding invoke dispatch when_type msg_size
  invoke-size request room = ground (arith, request.0, request.1, table_size-total bs m room)
