-- ===== src/Table/Session.antt =====
-- Operations on the table of source/table.c, against the same operations on a map from keys to bytes.
pub mod Runs
use mathlib.Core.Path.{fun_ext}
use amazon_dynamo_db.Prelude.{
  ℕ, zero, suc, ◌+◌, ◌-◌, ◌*◌, ◌≤◌, ◌<◌, ◌≡◌, refl, ap, pos, minus_one, ℤ, some, none, Option,
  Option-cases, List, [], ◌∷◌, arith, int_limit, length, length-set, if◌then◌else◌, All, Bool, true,
  false, inl, inr, get_or,
}
use amazon_dynamo_db.Memory.{ok, Memory, M, pure, ◌>>=◌}
use amazon_dynamo_db.Memory.Spend.{IsAmple, IsAmple-spend, spend}
use amazon_dynamo_db.Strings.{Bytes}
use amazon_dynamo_db.Block.{Block, block_destroy}
use amazon_dynamo_db.Block.Laws.{block_of, block_destroy-spend}
use amazon_dynamo_db.Assoc.{same}
use amazon_dynamo_db.Assoc.Finds.{is_some, to_ℕ}
use amazon_dynamo_db.Table.{Table, table_create, table_put, table_get, table_remove}
use amazon_dynamo_db.Table.Hash.{home, IsKey}
use amazon_dynamo_db.Table.Buckets.{
  Buckets, IsTable, table_of, view, put, del, total, put-IsTable, del-IsTable, view-put, view-del,
  total-put, total-del, length-get_or-le, empty, empty-IsTable,
}
use amazon_dynamo_db.Table.Refines.{table_get-view, table_remove-del}
use amazon_dynamo_db.Table.Put.{table_put-put}
use amazon_dynamo_db.Table.Destroy.Laws.{blocks}

pub data Op : Type 0 where
  store : Bytes → Bytes → Op
  fetch : Bytes → Op
  erase : Bytes → Op

-- A code, or the bytes of a block.
pub data Reply : Type 0 where
  code : ℤ → Reply
  bytes : Option Bytes → Reply

-- The caller of `table_get` frees the block that it is given.
read_block : Option Block → M (Option Bytes)
read_block none = pure none
read_block (some b) = do _ ← block_destroy (some b); pure b.data_

pub exec : Op → Option Table → M (Reply × Option Table)
exec (store k v) t = do (c, t') ← table_put t (some k) (some (block_of v)); pure (code c, t')
exec (fetch k) t = do b ← table_get t (some k); v ← read_block b; pure (bytes v, t)
exec (erase k) t = do (c, t') ← table_remove t (some k); pure (code c, t')

pub run : List Op → Option Table → M (List Reply × Option Table)
run [] t = pure ([], t)
run (op ∷ ops) t = do (r, t') ← exec op t; (rs, t'') ← run ops t'; pure (r ∷ rs, t'')

-- The same operations on a map.
abbrev pub Map : Type 0
Map = Bytes → Option Bytes

abbrev pub update : Map → Bytes → Option Bytes → Map
update f k r q = if same k q then r else f q

unfoldable pub answer : Op → Map → Reply × Map
answer (store k v) f = (code (pos 0), update f k (some v))
answer (fetch k) f = (bytes (f k), f)
answer (erase k) f = (code (if is_some (f k) then pos 0 else pos 1), update f k none)

unfoldable pub answers : List Op → Map → List Reply
unfolding answer
answers [] f = []
answers (op ∷ ops) f = (answer op f).0 ∷ answers ops (answer op f).1

unfoldable pub final : List Op → Map → Map
unfolding answer
final [] f = f
final (op ∷ ops) f = final ops (answer op f).1

-- The keys can be hashed, and the values are not empty.
abbrev pub IsOp : Op → Type 0
IsOp (store k v) = IsKey k × (0 < length v)
IsOp (fetch k) = IsKey k
IsOp (erase k) = IsKey k

-- A step of the table that answers as the map does, and accounts for every block.
pub record Steps (bs : Buckets) (op : Op) (m : Memory) : Type 0 where
  pub after : Buckets
  pub granted : ℕ
  pub freed : ℕ
  pub runs :
      exec op (some (table_of bs)) m
      ≡ ok (((answer op (view bs)).0, some (table_of after)), spend granted freed m)
  pub valid : IsTable after
  pub views : view after ≡ (answer op (view bs)).1
  pub grows : total after ≤ total bs + 1
  pub balance : granted + blocks bs ≡ freed + blocks after

module _ {bs : Buckets} (t : IsTable bs) {m : Memory} (ample : IsAmple m)
    (room : total bs + 1 < int_limit) where
  store-Steps : (k v : Bytes) → IsKey k → 0 < length v → Steps bs (store k v) m
  unfolding exec answer
  store-Steps k v key filled =
      let small : length (get_or bs (home k (length bs)) []) + 1 < int_limit =
        omega (arith, length-get_or-le bs (home k (length bs))) in
      let done = table_put-put t k key v ample filled small in
      let more = total-put t k v in
      let same_length : length (put bs k v) ≡ length bs = length-set bs _ _ in
      record {
        after = put bs k v;
        granted = if is_some (view bs k) then 3 else 5;
        freed = if is_some (view bs k) then 3 else 0;
        runs = ground (arith, done);
        valid = put-IsTable t k v key filled;
        views = fun_ext (view-put t k v);
        grows = omega (arith, more);
        balance = ground (arith, more, same_length);
      }

  fetch-Steps : (k : Bytes) → IsKey k → Steps bs (fetch k) m
  unfolding exec answer read_block
  fetch-Steps k key =
      let read = table_get-view t k key ample in
      elim (Option-cases (view bs k)) [
        | inl gone ↦ record {
          after = bs;
          granted = 0;
          freed = 0;
          runs = ground (arith, read, gone);
          valid = t;
          views = refl;
          grows = omega arith;
          balance = refl;
        }
        | inr (v, there) ↦ record {
          after = bs;
          granted = 2;
          freed = 2;
          runs = ground (arith, read, there, block_destroy-spend v (spend 2 0 m));
          valid = t;
          views = refl;
          grows = omega arith;
          balance = refl;
        }
      ]

  erase-Steps : (k : Bytes) → IsKey k → Steps bs (erase k) m
  unfolding exec answer
  erase-Steps k key =
      let small : length (get_or bs (home k (length bs)) []) < int_limit =
        omega (arith, length-get_or-le bs (home k (length bs))) in
      let done = table_remove-del t k key m small in
      let fewer = total-del t k in
      let same_length : length (del bs k) ≡ length bs = length-set bs _ _ in
      record {
        after = del bs k;
        granted = 0;
        freed = if is_some (view bs k) then 5 else 0;
        runs = ground (arith, done);
        valid = del-IsTable t k;
        views = fun_ext (view-del t k);
        grows = omega (arith, fewer);
        balance = ground (arith, fewer, same_length);
      }

  pub exec-Steps : (op : Op) → IsOp op → Steps bs op m
  exec-Steps (store k v) h = store-Steps k v h.0 h.1
  exec-Steps (fetch k) h = fetch-Steps k h
  exec-Steps (erase k) h = erase-Steps k h
