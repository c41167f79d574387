-- ===== src/Commands/Effects.antt =====
-- What commands do to a server, and what they print.
use amazon_dynamo_db.Prelude.{
  ◌+◌, ◌≤◌, ◌<◌, ◌≡◌, refl, pos, some, Option, [], ◌∷◌, ◌++◌, arith, int_limit, length,
  length-append, take, if◌then◌else◌,
}
use amazon_dynamo_db.Memory.{ok, fault, out_of_bounds, Memory}
use amazon_dynamo_db.Memory.Spend.{IsAmple, IsAmple-spend, spend, malloc-IsAmple}
use amazon_dynamo_db.Strings.{Bytes}
use amazon_dynamo_db.Block.Laws.{block_destroy-spend, block_create-long}
use amazon_dynamo_db.Entry.Laws.{entry_create-pair, entry_destroy-pair}
use amazon_dynamo_db.Assoc.Finds.{is_some}
use amazon_dynamo_db.Table.Hash.{IsKey}
use amazon_dynamo_db.Table.Buckets.{Buckets, IsTable, table_of, view, put, total}
use amazon_dynamo_db.Messages.{StatisticsT}
use amazon_dynamo_db.Stub.{Link}
use amazon_dynamo_db.Stub.Server.{Server, running, server_link}
use amazon_dynamo_db.Stub.Remote.{rtable_put-first, rtable_put-short, rtable_get-view}
use amazon_dynamo_db.Commands.{
  stored, value_of, print_string, put_command, put_result, get_command, get_result, value_output,
}
use amazon_dynamo_db.Commands.Lines.{Lacks}

-- `%s` prints what stands before the first 0.
pub print_string-append :
    (text rest : Bytes) (m : Memory)
    → Lacks 0 text
    → print_string (text ++ 0 ∷ rest) m ≡ ok (text, m)
unfolding print_string
print_string-append [] rest m h = ground arith
print_string-append (x ∷ text) rest m h = ground (arith, h.0, print_string-append text rest m h.1)

-- Without a 0 it reads on behind the block.
print_string-Lacks :
    (data_ : Bytes) (m : Memory) → Lacks 0 data_ → print_string data_ m ≡ fault out_of_bounds
unfolding print_string
print_string-Lacks [] m h = refl
print_string-Lacks (x ∷ xs) m h = ground (arith, h.0, print_string-Lacks xs m h.1)

module _ {bs : Buckets} (t : IsTable bs) (counters : StatisticsT) {m sm : Memory}
    (ample : IsAmple m) (server_ample : IsAmple sm) where
  -- A put command with a value of at least seven characters stores the first eight bytes of the
  -- string, its end included, and frees all it has allocated, when client and server are granted
  -- every request for memory, the key is hashable and one more than the entries of the valid table
  -- of the server fits an int.
  pub put_command-cut :
      (tail : Option (Link Server)) (k v : Bytes)
      → IsKey k
      → 7 ≤ length v
      → total bs + 1 < int_limit
      → put_command (some server_link) tail k v (running counters (some (table_of bs)) sm) m
        ≡ ok (
          (
            stored ∷ [],
            running counters
                (some (table_of (put bs k (take 8 (v ++ 0 ∷ [])))))
                (if is_some (view bs k) then spend 4 6 sm else spend 6 3 sm),
          ),
          spend 6 6 m,
        )
  unfolding put_command put_result
  put_command-cut tail k v key long room =
      let d : Bytes = v ++ 0 ∷ [] in
      let wide : length d ≡ length v + 1 = length-append v (0 ∷ []) in
      ground (
        arith,
        malloc-IsAmple (length k + 1) ample,
        malloc-IsAmple (length v + 1) (IsAmple-spend 1 0 ample),
        block_create-long (IsAmple-spend 2 0 ample) 8 d (omega arith),
        entry_create-pair (IsAmple-spend 3 0 ample) k (record { datasize = pos 8; data_ = some d }),
        rtable_put-first t counters (IsAmple-spend 4 0 ample) server_ample k d 8 key
            (omega arith, omega arith) (omega arith) room,
        entry_destroy-pair k d (pos 8) (spend 6 2 m),
      )

  -- A value of less than seven characters is read behind its end.
  pub put_command-short :
      (tail : Option (Link Server)) (k v : Bytes)
      → length v < 7
      → put_command (some server_link) tail k v (running counters (some (table_of bs)) sm) m
        ≡ fault out_of_bounds
  unfolding put_command
  put_command-short tail k v short =
      let d : Bytes = v ++ 0 ∷ [] in
      let wide : length d ≡ length v + 1 = length-append v (0 ∷ []) in
      ground (
        arith,
        malloc-IsAmple (length k + 1) ample,
        malloc-IsAmple (length v + 1) (IsAmple-spend 1 0 ample),
        block_create-long (IsAmple-spend 2 0 ample) 8 d (omega arith),
        entry_create-pair (IsAmple-spend 3 0 ample) k (record { datasize = pos 8; data_ = some d }),
        rtable_put-short t counters (IsAmple-spend 4 0 ample) server_ample k d 8 (omega arith),
      )

  -- A value with an end is printed up to it, and everything is freed.
  pub get_command-text :
      (head : Option (Link Server)) (k text rest : Bytes)
      → IsKey k
      → view bs k ≡ some (text ++ 0 ∷ rest)
      → Lacks 0 text
      → length (text ++ 0 ∷ rest) < int_limit
      → get_command head (some server_link) (some k) (running counters (some (table_of bs)) sm) m
        ≡ ok (
          (value_of k text ∷ [], running counters (some (table_of bs)) (spend 3 2 sm)),
          spend 5 5 m,
        )
  unfolding get_command get_result value_output
  get_command-text head k text rest key there plain short =
      let d : Bytes = text ++ 0 ∷ rest in
      let got =
        rtable_get-view t counters ample server_ample k key
          (λ v e. ground (arith, e, there, short)) in
      ground (
        arith,
        got,
        there,
        print_string-append text rest (spend 5 3 m) plain,
        block_destroy-spend d (spend 5 3 m),
      )

  -- A value without an end is read behind its end.
  pub get_command-endless :
      (head : Option (Link Server)) (k v : Bytes)
      → IsKey k
      → view bs k ≡ some v
      → Lacks 0 v
      → length v < int_limit
      → get_command head (some server_link) (some k) (running counters (some (table_of bs)) sm) m
        ≡ fault out_of_bounds
  unfolding get_command get_result value_output
  get_command-endless head k v key there plain short =
      let got =
        rtable_get-view t counters ample server_ample k key
          (λ u e. ground (arith, e, there, short)) in
      ground (arith, got, there, print_string-Lacks v (spend 5 3 m) plain)
