-- ===== src/Table/Put.antt =====
-- `table_put` on the table that stands for association lists, when every request for memory is
-- granted.
use amazon_dynamo_db.Prelude.{
  ℕ, ◌+◌, ◌<◌, ◌≡◌, pos, some, none, arith, int_limit, length, set, if◌then◌else◌, inl, inr, true,
  set-map,
}
use amazon_dynamo_db.Memory.{ok, Memory}
use amazon_dynamo_db.Memory.Spend.{IsAmple, IsAmple-spend, spend, malloc-IsAmple}
use amazon_dynamo_db.Strings.{Bytes}
use amazon_dynamo_db.Block.Laws.{block_of, block_duplicate-copy}
use amazon_dynamo_db.Entry.Laws.{entry_of, entry_create-entry_of, entry_replace-spend}
use amazon_dynamo_db.Assoc.{insert}
use amazon_dynamo_db.Assoc.Position.{Located-IsSorted}
use amazon_dynamo_db.Assoc.Finds.{is_some, length-insert, replaces-find}
use amazon_dynamo_db.LinkedList.Refines.{list_of, list_add-insert, list_get-find}
use amazon_dynamo_db.Table.{table_put, put_copy, put_entry, store_entry}
use amazon_dynamo_db.Table.Hash.{home, IsKey}
use amazon_dynamo_db.Table.Buckets.{Buckets, table_of, bucket, view, put, IsTable}
use amazon_dynamo_db.Table.Refines.{table-hash, table-index, store_list-table_of}

module _ {bs : Buckets} (t : IsTable bs) (k : Bytes) (key : IsKey k) where
  module _ (v : Bytes) where
    store_entry-insert :
        (d : ℕ)
        → is_some (view bs k) ≡ true
        → set (bucket bs k) d (k, v) ≡ insert (k, v) (bucket bs k)
        → store_entry (some (list_of (bucket bs k))) d (some (entry_of (k, v)))
          ≡ some (list_of (insert (k, v) (bucket bs k)))
    unfolding store_entry
    store_entry-insert d found s = ground (
      arith,
      s,
      set-map entry_of (bucket bs k) d (k, v),
      length-insert (k, v) (bucket bs k),
      replaces-find k (bucket bs k) (t.sorted (home k (length bs))),
    )

    -- `put_entry` where the key is there, and where it is not.
    put-old :
        (m : Memory) (d : ℕ) (w : Bytes)
        → view bs k ≡ some w
        → set (bucket bs k) d (k, v) ≡ insert (k, v) (bucket bs k)
        → put_entry
            (table_of bs)
            (pos (home k (length bs)))
            (some (list_of (bucket bs k)))
            k
            (some (block_of v))
            (some (d, entry_of (k, w)))
            m
          ≡ ok ((pos 0, table_of (put bs k v)), spend 0 3 m)
    unfolding put_entry
    put-old m d w f s = ground (
      arith,
      entry_replace-spend (k, w) k v m,
      store_entry-insert d (rw f) s,
      store_list-table_of t k key (insert (k, v) (bucket bs k)),
    )

    put-new :
        {m : Memory}
        → IsAmple m
        → length (bucket bs k) + 1 < int_limit
        → view bs k ≡ none
        → put_entry
            (table_of bs)
            (pos (home k (length bs)))
            (some (list_of (bucket bs k)))
            k
            (some (block_of v))
            none
            m
          ≡ ok ((pos 0, table_of (put bs k v)), spend 2 0 m)
    unfolding put_entry
    put-new {m} ample room f = ground (
      arith,
      entry_create-entry_of ample k v,
      list_add-insert (IsAmple-spend 1 0 ample) (k, v) (bucket bs k) room,
      replaces-find k (bucket bs k) (t.sorted (home k (length bs))),
      f,
      store_list-table_of t k key (insert (k, v) (bucket bs k)),
    )

    -- table_put on a valid table stores the pair at its place in the list of its key and returns 0,
    -- at five blocks for a new key, and three granted and three freed for a replaced one, when
    -- malloc grants every request, the key is hashable, the value is not empty and one more than
    -- the length of the list fits an int.
    pub table_put-put :
        {m : Memory}
        → IsAmple m
        → 0 < length v
        → length (bucket bs k) + 1 < int_limit
        → table_put (some (table_of bs)) (some k) (some (block_of v)) m
          ≡ ok (
            (pos 0, some (table_of (put bs k v))),
            (if is_some (view bs k) then spend 3 3 m else spend 5 0 m),
          )
    unfolding table_put put_copy
    table_put-put {m} ample filled room =
        let n = spend 3 0 m in
        let prefix = malloc-IsAmple (length k + 1) ample in
        let copied = block_duplicate-copy (IsAmple-spend 1 0 ample) v filled in
        let read = list_get-find k (bucket bs k) n in
        elim (Located-IsSorted 0 k (bucket bs k) (t.sorted (home k (length bs)))) [
          | inl (p, f) ↦
              let stored = put-new (IsAmple-spend 3 0 ample) room f in
              ground (
                arith,
                prefix,
                table-hash t k key (spend 1 0 m),
                copied,
                table-index t k key n,
                read,
                p,
                f,
                stored,
              )
          | inr ((d, w), (p, f, s)) ↦
              let stored = put-old n d w f (s v) in
              ground (
                arith,
                prefix,
                table-hash t k key (spend 1 0 m),
                copied,
                table-index t k key n,
                read,
                p,
                f,
                stored,
              )
        ]
