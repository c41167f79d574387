-- ===== src/Commands/Steps.antt =====
-- Commands on values of seven characters, which a put stores whole and with their end: what they print
-- and what they do to a map from keys to texts.
use amazon_dynamo_db.Prelude.{
  All, map, refl, ℕ, ◌+◌, ◌≤◌, ◌<◌, ◌≡◌, ap, sym, ◌∙◌, Bool, Bool-cases, inl, inr, none, some,
  Option, Option-cases, List, [], ◌∷◌, ◌++◌, arith, int_limit, length, length-append, take,
  take-length, subst, if◌then◌else◌,
}
use amazon_dynamo_db.Memory.{ok, Memory}
use amazon_dynamo_db.Memory.Spend.{IsAmple, spend}
use amazon_dynamo_db.Strings.{Bytes}
use amazon_dynamo_db.Block.Laws.{block_destroy-null}
use amazon_dynamo_db.Assoc.{same}
use amazon_dynamo_db.Assoc.Finds.{is_some}
use amazon_dynamo_db.Table.Hash.{IsKey}
use amazon_dynamo_db.Table.Buckets.{
  Buckets, IsTable, table_of, view, put, del, total, put-IsTable, del-IsTable, view-put, view-del,
  total-put, total-del,
}
use amazon_dynamo_db.Table.Session.{Map, update}
use amazon_dynamo_db.Messages.{StatisticsT}
use amazon_dynamo_db.Stub.{Link}
use amazon_dynamo_db.Stub.Server.{Server, running, server_link}
use amazon_dynamo_db.Stub.Remote.{rtable_get-view, rtable_del-del}
use amazon_dynamo_db.Commands.{
  Request, blank, get, Output, stored, value_of, no_value, removed, get_command, get_result,
  del_command, del_result, going_on, execute, read_command, goes_on, parse, read_lines, fgets_lines,
}
use amazon_dynamo_db.Commands
use amazon_dynamo_db.Commands.Lines.{Lacks, IsTyped, IsLine, print, parse-print}
use amazon_dynamo_db.Commands.Effects.{put_command-cut, get_command-text}

-- A command with a value of seven characters, as every put that is read whole has.
pub data IsChat : Request → Type 0 where
  puts :
      (key value : Bytes)
      → IsTyped (Commands.put key value)
      → IsKey key
      → (length value ≡ 7) × Lacks 0 value
      → IsChat (Commands.put key value)
  gets : (key : Bytes) → IsTyped (get (some key)) → IsKey key → IsChat (get (some key))
  dels :
      (key : Bytes)
      → IsTyped (Commands.del (some key))
      → IsKey key
      → IsChat (Commands.del (some key))
  blanks : IsChat blank

-- What is printed, if the texts are those of the map, and the texts afterwards.
abbrev found : Bytes → Option Bytes → Output
found key none = no_value
found key (some text) = value_of key text

unfoldable pub shown : Request → Map → List Output
shown (Commands.put key value) f = stored ∷ []
shown (get (some key)) f = found key (f key) ∷ []
shown (Commands.del key) f = removed ∷ []
shown _ f = []

unfoldable pub next : Request → Map → Map
next (Commands.put key value) f = update f key (some value)
next (Commands.del (some key)) f = update f key none
next _ f = f

-- The bytes of a text with its end.
abbrev pub ended : Option Bytes → Option Bytes
ended none = none
ended (some text) = some (text ++ 0 ∷ [])

-- A table with these texts, of seven characters each.
pub record Represents (bs : Buckets) (f : Map) : Type 0 where
  pub valid : IsTable bs
  pub views : (k : Bytes) → view bs k ≡ ended (f k)
  pub texts : (k text : Bytes) → f k ≡ some text → (length text ≡ 7) × Lacks 0 text

-- The command prints what the map has; the client frees all that it was granted.
pub record Shows (hc tc : Bool) (counters : StatisticsT) (bs : Buckets) (f : Map) (r : Request)
    (m sm : Memory) : Type 0 where
  pub after : Buckets
  pub used : ℕ
  pub granted : ℕ
  pub freed : ℕ
  pub runs :
      execute
        (some server_link)
        (some server_link)
        hc
        tc
        r
        (running counters (some (table_of bs)) sm)
        m
      ≡ ok (
        goes_on (shown r f) (running counters (some (table_of after)) (spend granted freed sm)),
        spend used used m,
      )
  pub represents : Represents after (next r f)
  pub grows : total after ≤ total bs + 1

module _ (hc tc : Bool) (counters : StatisticsT) {bs : Buckets} {f : Map} (rep : Represents bs f)
    {m sm : Memory} (ample : IsAmple m) (server_ample : IsAmple sm)
    (room : total bs + 1 < int_limit) where
  -- A write of a text, or of none, under a key.
  Represents-update :
      (after : Buckets) (key : Bytes) (text : Option Bytes)
      → IsTable after
      → ((q : Bytes) → view after q ≡ (if same key q then ended text else view bs q))
      → ((v : Bytes) → text ≡ some v → (length v ≡ 7) × Lacks 0 v)
      → Represents after (update f key text)
  Represents-update after key text valid viewed proper = record {
    valid = valid;
    views = λ q. elim (Bool-cases (same key q)) [
      | inl this ↦ ground (arith, viewed q, this)
      | inr other ↦ ground (arith, viewed q, other, rep.views q)
    ];
    texts = λ q v e. elim (Bool-cases (same key q)) [
      | inl this ↦ proper v (ground (arith, this, e))
      | inr other ↦ rep.texts q v (ground (arith, other, e))
    ];
  }

  put-Shows :
      (key value : Bytes)
      → IsKey key
      → (length value ≡ 7) × Lacks 0 value
      → Shows hc tc counters bs f (Commands.put key value) m sm
  unfolding execute going_on shown next
  put-Shows key value hashable seven =
      let d : Bytes = value ++ 0 ∷ [] in
      let wide : length d ≡ 8 = omega (arith, length-append value (0 ∷ []), seven.0) in
      let whole : take 8 d ≡ d = ap (λ n. take n d) (sym wide) ∙ take-length d in
      let cut =
        put_command-cut rep.valid counters ample server_ample (some server_link) key value hashable
          (omega (arith, seven.0)) room in
      record {
        after = put bs key d;
        used = 6;
        granted = if is_some (view bs key) then 4 else 6;
        freed = if is_some (view bs key) then 6 else 3;
        runs = ground (arith, cut, whole);
        represents =
            Represents-update (put bs key d) key (some value)
              (put-IsTable rep.valid key d hashable (omega (arith, wide)))
              (view-put rep.valid key d)
              (λ v e. subst (λ x. (length x ≡ 7) × Lacks 0 x) (ground (arith, e)) seven);
        grows = omega (arith, total-put rep.valid key d);
      }

  del-Shows : (key : Bytes) → IsKey key → Shows hc tc counters bs f (Commands.del (some key)) m sm
  unfolding execute going_on shown next del_command del_result
  del-Shows key hashable =
      let gone =
        rtable_del-del rep.valid counters ample server_ample key hashable (omega (arith, room)) in
      record {
        after = del bs key;
        used = 1;
        granted = 0;
        freed = if is_some (view bs key) then 5 else 0;
        runs = ground (arith, gone);
        represents =
            Represents-update (del bs key) key none (del-IsTable rep.valid key)
              (view-del rep.valid key) (λ v e. absurd (ground (arith, e)));
        grows = omega (arith, total-del rep.valid key);
      }

  get-Shows : (key : Bytes) → IsKey key → Shows hc tc counters bs f (get (some key)) m sm
  unfolding execute going_on shown next get_command get_result
  get-Shows key hashable = elim (Option-cases (f key)) [
    | inl missing ↦
        let there = rep.views key ∙ ap ended missing in
        let read =
          rtable_get-view rep.valid counters ample server_ample key hashable
            (λ v e. ground (arith, e, there)) in
        record {
          after = bs;
          used = 1;
          granted = 0;
          freed = 0;
          runs = ground (arith, read, there, missing, block_destroy-null (spend 1 1 m));
          represents = rep;
          grows = omega arith;
        }
    | inr (text, written) ↦
        let there = rep.views key ∙ ap ended written in
        let seven = rep.texts key text written in
        let read =
          get_command-text rep.valid counters ample server_ample (some server_link) key text []
            hashable there seven.1 (omega (arith, length-append text (0 ∷ []), seven.0)) in
        record {
          after = bs;
          used = 5;
          granted = 3;
          freed = 2;
          runs = ground (arith, read, written);
          represents = rep;
          grows = omega arith;
        }
  ]

  blank-Shows : Shows hc tc counters bs f blank m sm
  unfolding execute shown next
  blank-Shows = record {
    after = bs;
    used = 0;
    granted = 0;
    freed = 0;
    runs = ground arith;
    represents = rep;
    grows = omega arith;
  }

  pub execute-Shows : (r : Request) → IsChat r → Shows hc tc counters bs f r m sm
  execute-Shows r (puts key value typed hashable seven) = put-Shows key value hashable seven
  execute-Shows r (gets key typed hashable) = get-Shows key hashable
  execute-Shows r (dels key typed hashable) = del-Shows key hashable
  execute-Shows r blanks = blank-Shows

IsTyped-IsChat : (r : Request) → IsChat r → IsTyped r
IsTyped-IsChat r (puts key value typed hashable seven) = typed
IsTyped-IsChat r (gets key typed hashable) = typed
IsTyped-IsChat r (dels key typed hashable) = typed
IsTyped-IsChat r blanks = tt

-- The line of a request.
abbrev pub line : Request → Option Bytes
line r = some (print r ++ b'\n' ∷ [])

-- The requests as they are typed, a line each.
abbrev pub typed_lines : List Request → Bytes
typed_lines [] = []
typed_lines (r ∷ rs) = print r ++ b'\n' ∷ typed_lines rs

pub read_command-line :
    (head tail : Option (Link Server)) (hc tc : Bool) (r : Request) (s : Server) (m : Memory)
    → IsChat r
    → IsLine r
    → read_command head tail hc tc (line r) s m ≡ execute head tail hc tc r s m
unfolding read_command
read_command-line head tail hc tc r s m chat fits =
    ap (λ x. execute head tail hc tc x s m) (parse-print r [] (IsTyped-IsChat r chat) fits).1

pub read_lines-typed_lines :
    (rs : List Request)
    → All IsChat rs
    → All IsLine rs
    → map some (read_lines (typed_lines rs)) ≡ map line rs
unfolding read_lines fgets_lines
read_lines-typed_lines [] chat fits = refl
read_lines-typed_lines (r ∷ rs) chat fits =
    let first = (parse-print r (typed_lines rs) (IsTyped-IsChat r chat.0) fits.0).0 in
    ap (map some) first ∙ ap (λ ls. line r ∷ ls) (read_lines-typed_lines rs chat.1 fits.1)
