-- ===== src/Chain/Watcher.antt =====
-- `child_watcher`: what a server does when the nodes of the chain have changed.
use amazon_dynamo_db.Prelude.{
  ◌≡◌, refl, ℤ, Bool, true, false, Option, none, some, if◌then◌else◌, List, ◌∷◌, inl, arith, ◌⊎◌,
}
use amazon_dynamo_db.Strings.{Bytes}
use amazon_dynamo_db.Assoc.{same}
use amazon_dynamo_db.Assoc.Finds.{is_some}
use amazon_dynamo_db.Chain.{no_next, scan_next, node_path}

-- The globals of the next node. A connection is a value of `R`; `closed` are those that were given
-- to `rtable_disconnect`, the last one first.
pub record NextNode (R : Type 0) : Type 0 where
  pub next_exists : Bool
  pub next_znode_id : Option Bytes
  pub next_znode_rtable : Option R
  pub closed : List R

-- What ZooKeeper and the network do: the data of a node by its path, what the buffer holds if it
-- could not be read, and the connection to an address.
pub record Environment (R : Type 0) : Type 0 where
  pub zoo_get : Bytes → Option Bytes
  pub unread : Bytes
  pub rtable_connect : Bytes → Option R

-- The next node is the one that the scan has found, or there is none.
abbrev pub next_of : Bytes → Option Bytes
next_of max = if same max no_next then none else some max

module _ {R : Type 0} where
  unfoldable pub push : Option R → List R → List R
  push none closed = closed
  push (some r) closed = r ∷ closed

  unfoldable pub buffer_of : Environment R → Option Bytes → Bytes
  buffer_of net none = net.unread
  buffer_of net (some address) = address

  -- Without a connection the server exits.
  unfoldable pub connected : NextNode R → Bytes → Option R → Option (NextNode R)
  connected s max none = none
  connected s max (some r) =
      some (record s { next_exists = true; next_znode_id = some max; next_znode_rtable = some r })

  unfoldable pub disconnect_next : NextNode R → NextNode R
  disconnect_next s =
      if s.next_exists then record s { closed = push s.next_znode_rtable s.closed } else s

  -- The pointer `next_znode_id` is never `max`, which lies in a list that was just made. `none` is
  -- the exit of the server.
  unfoldable pub child_watcher : Environment R → ℤ → List Bytes → NextNode R → Option (NextNode R)
  child_watcher net node_id children s =
      let max = scan_next node_id children no_next in
      if same max no_next
      then some (
          if s.next_exists
          then record (disconnect_next s) { next_exists = false; next_znode_id = none }
          else (if is_some s.next_znode_id then s else record s { next_exists = false }))
      else connected (disconnect_next s) max
          (net.rtable_connect (buffer_of net (net.zoo_get (node_path max))))

  unfoldable pub handle_next_server : NextNode R → NextNode R
  handle_next_server s = record s { next_exists = false; next_znode_id = none }

  -- A next node is there if and only if it has a name, and then it has a connection.
  pub record IsLinked (s : NextNode R) : Type 0 where
    pub named : s.next_exists ≡ is_some s.next_znode_id
    pub open_ : (s.next_exists ≡ false) ⊎ (is_some s.next_znode_rtable ≡ true)

  pub handle_next_server-IsLinked : (s : NextNode R) → IsLinked (handle_next_server s)
  unfolding handle_next_server
  handle_next_server-IsLinked s = record { named = refl; open_ = inl refl }

  -- A run of child_watcher that does not end the server keeps that a next node is there if and only
  -- if it has a name, and then has a connection; the next node is the one that the scan finds, or
  -- none, and the connection that was there is given to rtable_disconnect, when this held before.
  pub child_watcher-IsLinked :
      (net : Environment R) (node_id : ℤ) (children : List Bytes) (s : NextNode R) {s' : NextNode R}
      → IsLinked s
      → child_watcher net node_id children s ≡ some s'
      → IsLinked s'
        × (s'.next_znode_id ≡ next_of (scan_next node_id children no_next))
        × (s'.closed ≡ (if s.next_exists then push s.next_znode_rtable s.closed else s.closed))
  unfolding child_watcher connected disconnect_next buffer_of push
  child_watcher-IsLinked net node_id children s l e = ground (arith, e)
