-- ===== src/Stub/Remote.antt =====
-- What a client sees of the table of a server, when every message arrives whole (server_link) and both
-- are granted every request for memory.
use amazon_dynamo_db.Prelude.{
  ℕ, take, ◌≤◌, length-take_le, ◌+◌, ◌<◌, ◌≡◌, refl, pos, some, none, Option-cases, arith,
  int_limit, length, if◌then◌else◌, inl, inr,
}
use amazon_dynamo_db.Memory.{ok, Memory, fault, out_of_bounds}
use amazon_dynamo_db.Memory.Spend.{
  IsAmple, IsAmple-spend, spend, malloc-IsAmple, free-spend, memcpy-all, memcpy-take, memcpy-short,
}
use amazon_dynamo_db.Strings.{Bytes}
use amazon_dynamo_db.Block.Laws.{
  block_of, block_destroy-spend, block_create-copy, block_duplicate-copy,
}
use amazon_dynamo_db.Entry.Laws.{entry_of}
use amazon_dynamo_db.Assoc.Finds.{is_some}
use amazon_dynamo_db.Table.Hash.{IsKey}
use amazon_dynamo_db.Table.Buckets.{Buckets, IsTable, table_of, view, put, del, total}
use amazon_dynamo_db.Table.Refines.{found-value}
use amazon_dynamo_db.Messages.{StatisticsT}
use amazon_dynamo_db.Messages.Opcode
use amazon_dynamo_db.Skeleton.{int_of_size}
use amazon_dynamo_db.Skeleton.Replies.{invoke-put, invoke-get, invoke-del, invoke-size, value_reply}
use amazon_dynamo_db.Stub.{
  put_request, key_request, bare_request, rtable_put, put_entry, free_copy, code_of, rtable_get,
  take_value, rtable_del, rtable_size, result_of,
}
use amazon_dynamo_db.Stub.Server.{running, server_link}

-- The value of an answer, in a block: three blocks stay in the count, and two are freed again.
take_value-block_of :
    (v : Bytes) {m : Memory}
    → IsAmple m
    → (0 < length v) × (length v < int_limit)
    → take_value (some (value_reply v)) m ≡ ok (some (block_of v), spend 4 3 m)
unfolding take_value int_of_size
take_value-block_of v {m} ample sized = ground (
  arith,
  malloc-IsAmple (length v) ample,
  memcpy-all (spend 1 0 m) v,
  block_create-copy (IsAmple-spend 1 0 ample) v sized.0,
  block_duplicate-copy (IsAmple-spend 2 0 ample) v sized.0,
  block_destroy-spend v (spend 4 0 m),
  free-spend (spend 4 2 m),
)

module _ {bs : Buckets} (t : IsTable bs) (stats : StatisticsT) {m sm : Memory} (ample : IsAmple m)
    (server_ample : IsAmple sm) where
  -- rtable_put to a server with a valid table returns 0, and the server then has the entry, when
  -- client and server are granted every request for memory, the key is hashable, the value is not
  -- empty, and its length and one more than the entries fit an int.
  pub rtable_put-put :
      (k v : Bytes)
      → IsKey k
      → (0 < length v) × (length v < int_limit)
      → total bs + 1 < int_limit
      → rtable_put
          (some server_link)
          (some (entry_of (k, v)))
          (running stats (some (table_of bs)) sm)
          m
        ≡ ok (
          (
            pos 0,
            running stats
                (some (table_of (put bs k v)))
                (if is_some (view bs k) then spend 4 6 sm else spend 6 3 sm),
          ),
          spend 2 2 m,
        )
  unfolding rtable_put put_entry free_copy code_of
  rtable_put-put k v key sized room =
      let answered =
        invoke-put t stats (put_request k v) server_ample k v (refl, refl) refl key sized room in
      ground (
        arith,
        malloc-IsAmple (length k + 1) ample,
        malloc-IsAmple (length v) (IsAmple-spend 1 0 ample),
        memcpy-all (spend 2 0 m) v,
        answered,
        free-spend (spend 2 0 m),
        free-spend (spend 2 1 m),
      )

  -- The same for a block whose data may be longer than its size: the first bytes are stored.
  pub rtable_put-first :
      (k d : Bytes) (n : ℕ)
      → IsKey k
      → (0 < n) × (n < int_limit)
      → n ≤ length d
      → total bs + 1 < int_limit
      → rtable_put
          (some server_link)
          (some
            (record { key = some k; value = some (record { datasize = pos n; data_ = some d }) }))
          (running stats (some (table_of bs)) sm)
          m
        ≡ ok (
          (
            pos 0,
            running stats
                (some (table_of (put bs k (take n d))))
                (if is_some (view bs k) then spend 4 6 sm else spend 6 3 sm),
          ),
          spend 2 2 m,
        )
  unfolding rtable_put put_entry free_copy code_of
  rtable_put-first k d n key sized enough room =
      let v = take n d in
      let wide : length v ≡ n = length-take_le n d enough in
      let answered =
        invoke-put t stats (put_request k v) server_ample k v (refl, refl) refl key
          (omega arith, omega arith) room in
      ground (
        arith,
        malloc-IsAmple (length k + 1) ample,
        malloc-IsAmple n (IsAmple-spend 1 0 ample),
        memcpy-take (spend 2 0 m) d n enough,
        answered,
        free-spend (spend 2 0 m),
        free-spend (spend 2 1 m),
      )

  -- A block whose data is shorter than its size is read past its end.
  pub rtable_put-short :
      (k d : Bytes) (n : ℕ)
      → length d < n
      → rtable_put
          (some server_link)
          (some
            (record { key = some k; value = some (record { datasize = pos n; data_ = some d }) }))
          (running stats (some (table_of bs)) sm)
          m
        ≡ fault out_of_bounds
  unfolding rtable_put put_entry
  rtable_put-short k d n short = ground (
    arith,
    malloc-IsAmple (length k + 1) ample,
    malloc-IsAmple n (IsAmple-spend 1 0 ample),
    memcpy-short (spend 2 0 m) d n short,
  )

  -- rtable_get from a server with a valid table returns a copy of what the server has under a
  -- hashable key, and NULL without it, when client and server are granted every request for memory
  -- and an int counts the bytes of the value.
  pub rtable_get-view :
      (k : Bytes)
      → IsKey k
      → ((v : Bytes) → view bs k ≡ some v → length v < int_limit)
      → rtable_get (some server_link) (some k) (running stats (some (table_of bs)) sm) m
        ≡ (elim (view bs k) [
          | none ↦ ok ((none, running stats (some (table_of bs)) sm), spend 1 1 m)
          | some v ↦
              ok (
                (some (block_of v), running stats (some (table_of bs)) (spend 3 2 sm)),
                spend 5 3 m,
              )
        ])
  unfolding rtable_get take_value
  rtable_get-view k key short =
      let answered = invoke-get t stats (key_request Opcode.get k) server_ample (refl, refl) key in
      let copied = malloc-IsAmple (length k + 1) ample in
      elim (Option-cases (view bs k)) [
        | inl gone ↦ ground (arith, copied, answered, gone, free-spend (spend 1 0 m))
        | inr (v, there) ↦
            let sized : (0 < length v) × (length v < int_limit) =
              (found-value t k key v there, short v there) in
            ground (
              arith,
              copied,
              answered,
              there,
              take_value-block_of v (IsAmple-spend 1 0 ample) sized,
            )
      ]

  -- rtable_del to a server with a valid table returns 0, and the server is without the hashable
  -- key, whether it had it or not, when client and server are granted every request for memory and
  -- the entries fit an int.
  pub rtable_del-del :
      (k : Bytes)
      → IsKey k
      → total bs < int_limit
      → rtable_del (some server_link) (some k) (running stats (some (table_of bs)) sm) m
        ≡ ok (
          (
            pos 0,
            running stats
                (some (table_of (del bs k)))
                (spend 0 (if is_some (view bs k) then 5 else 0) sm),
          ),
          spend 1 1 m,
        )
  unfolding rtable_del code_of
  rtable_del-del k key room = ground (
    arith,
    malloc-IsAmple (length k + 1) ample,
    invoke-del t stats (key_request Opcode.del k) server_ample (refl, refl) key room,
    free-spend (spend 1 0 m),
  )

  -- `rtable_size` returns the number of entries of the server, while that is an `int`.
  pub rtable_size-total :
      total bs < int_limit
      → rtable_size (some server_link) (running stats (some (table_of bs)) sm) m
        ≡ ok ((pos (total bs), running stats (some (table_of bs)) sm), m)
  unfolding rtable_size result_of
  rtable_size-total room =
      ground (arith, invoke-size t stats (bare_request Opcode.size) server_ample (refl, refl) room)
