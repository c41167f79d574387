-- ===== src/Network/Keeps.antt =====
-- What holds wherever code on connections ends, on all its paths. Sending and receiving close nothing.
use amazon_dynamo_db.Prelude.{
  ℕ, ◌≡◌, refl, subst, ℤ, pos, minus_one, ◌==ℤ◌, ◌==◌, Option, none, some, Bool, true, false,
  if◌then◌else◌, List, length, is_positive,
}
use amazon_dynamo_db.Memory
use amazon_dynamo_db.Memory.{ok, fault, Memory, M, Run}
use amazon_dynamo_db.Memory.Holds.{Holds}
use amazon_dynamo_db.Strings.{Bytes}
use amazon_dynamo_db.Sockets.{Socket, write_all, read_all}
use amazon_dynamo_db.Messages.{MessageT}
use amazon_dynamo_db.Network.{
  Codec, World, Outcome, done, waiting, crashed, N, pure, ◌>>=◌, lift, update, write_fd, read_fd,
  network_send, network_receive, receive_body, finish, ntohs, htons,
}

module _ {A : Type 0} (P : A → Type 0) where
  -- If the run ends, its result satisfies `P`, and these descriptors are closed.
  abbrev pub Good : List ℕ → Outcome A → Type 0
  Good cs (done a w) = P a × (w.closed ≡ cs)
  Good cs waiting = Unit {0}
  Good cs (crashed f) = Unit {0}

  abbrev pub Ends : N A → Type 0
  Ends x = (w : World) → Good w.closed (x w)

  pub if-Ends : (b : Bool) (x y : N A) → Ends x → Ends y → Ends (if b then x else y)
  if-Ends true x y hx hy = hx
  if-Ends false x y hx hy = hy

  pub pure-Ends : (a : A) → P a → Ends (pure a)
  pure-Ends a p w = (p, refl)

  settled : (w : World) (r : Run (A × Memory)) → Holds P r → Good w.closed (lift (λ m. r) w)
  settled w (ok (a, m)) h = (h, refl)
  settled w (fault f) h = tt

  pub lift-Ends : (x : M A) → ((m : Memory) → Holds P (x m)) → Ends (lift x)
  lift-Ends x h w = settled w (x w.memory) (h w.memory)

module _ {A B : Type 0} (P : A → Type 0) (Q : B → Type 0) where
  bound :
      (f : A → N B) (cs : List ℕ) (o : Outcome A)
      → ((a : A) → P a → Ends Q (f a))
      → Good P cs o
      → Good Q cs (elim o [ done a v ↦ f a v | waiting ↦ waiting | crashed e ↦ crashed e ])
  bound f cs (done a v) hf h = subst (λ ds. Good Q ds (f a v)) h.1 (hf a h.0 v)
  bound f cs waiting hf h = tt
  bound f cs (crashed e) hf h = tt

  pub bind-Ends :
      (x : N A) (f : A → N B) → Ends P x → ((a : A) → P a → Ends Q (f a)) → Ends Q (x >>= f)
  bind-Ends x f hx hf w = bound f w.closed (x w) hf (hx w)

  pub bind-Good :
      (f : A → N B) (cs ds : List ℕ) (o : Outcome A)
      → ((a : A) (v : World) → P a → v.closed ≡ cs → Good Q ds (f a v))
      → Good P cs o
      → Good Q ds (elim o [ done a v ↦ f a v | waiting ↦ waiting | crashed e ↦ crashed e ])
  bind-Good f cs ds (done a v) hf h = hf a v h.0 h.1
  bind-Good f cs ds waiting hf h = tt
  bind-Good f cs ds (crashed e) hf h = tt

-- Any result.
abbrev pub Any : {A : Type 0} → A → Type 0
Any a = Unit {0}

run-Any : {A : Type 0} (r : Run (A × Memory)) → Holds Any r
run-Any (ok (a, m)) = tt
run-Any (fault e) = tt

pub lift-Any : {A : Type 0} (x : M A) → Ends Any (lift x)
lift-Any x = lift-Ends Any x (λ m. run-Any (x m))

written-Good :
    (fd : ℕ) (w : World) (o : Option (ℤ × Socket))
    → Good Any w.closed (elim o [
      | none ↦ waiting
      | some (res, s) ↦ done res (record w { sockets = update w.sockets fd s })
    ])
written-Good fd w none = tt
written-Good fd w (some (res, s)) = (tt, refl)

write_fd-Ends : (fd : ℕ) (buf : Bytes) → Ends Any (write_fd fd buf)
unfolding write_fd
write_fd-Ends fd buf w = written-Good fd w (write_all (w.sockets fd) buf)

read-Good :
    (fd : ℕ) (w : World) (o : Option (ℤ × Bytes × Socket))
    → Good {A = ℤ × Bytes} Any w.closed (elim o [
      | none ↦ waiting
      | some (res, got, s) ↦ done (res, got) (record w { sockets = update w.sockets fd s })
    ])
read-Good fd w none = tt
read-Good fd w (some (res, got, s)) = (tt, refl)

read_fd-Ends : (fd len : ℕ) → Ends Any (read_fd fd len)
unfolding read_fd
read_fd-Ends fd len w = read-Good fd w (read_all (w.sockets fd) len)

finish-Ends : (code : ℤ) → Ends Any (finish code)
unfolding finish
finish-Ends code =
    bind-Ends Any Any (lift Memory.free) (λ _. pure code) (lift-Any Memory.free)
      (λ a _. pure-Ends Any code tt)

pub network_send-Ends :
    (codec : Codec) (fd : ℕ) (msg : MessageT) → Ends Any (network_send codec fd msg)
unfolding network_send
network_send-Ends codec fd msg =
    let buffer = codec.pack msg in
    bind-Ends Any Any (lift (Memory.malloc (length buffer))) _
      (lift-Any (Memory.malloc (length buffer)))
      (λ granted _.
        if-Ends Any granted _ (pure minus_one)
          (bind-Ends Any Any (write_fd fd (htons (length buffer))) _
            (write_fd-Ends fd (htons (length buffer)))
            (λ n _.
              if-Ends Any (n ==ℤ pos 2) _ (finish minus_one)
                (bind-Ends Any Any (write_fd fd buffer) _ (write_fd-Ends fd buffer) (λ k _.
                  if-Ends Any (k ==ℤ pos (length buffer)) (finish (pos 0)) (finish minus_one)
                    (finish-Ends (pos 0)) (finish-Ends minus_one)))
                (finish-Ends minus_one)))
          (pure-Ends Any minus_one tt))

receive_body-Ends : (codec : Codec) (fd n : ℕ) → Ends Any (receive_body codec fd n)
unfolding receive_body
receive_body-Ends codec fd n =
    bind-Ends Any Any (lift (Memory.malloc n)) _ (lift-Any (Memory.malloc n)) (λ granted _.
      if-Ends Any granted _ (pure none)
        (bind-Ends Any Any (read_fd fd n) _ (read_fd-Ends fd n) (λ got _.
          bind-Ends Any Any (lift Memory.free) _ (lift-Any Memory.free) (λ a _.
            if-Ends Any (is_positive got.0) (pure (codec.unpack got.1)) (pure none)
              (pure-Ends Any (codec.unpack got.1) tt)
              (pure-Ends {A = Option MessageT} Any none tt))))
        (pure-Ends {A = Option MessageT} Any none tt))

pub network_receive-Ends : (codec : Codec) (fd : ℕ) → Ends Any (network_receive codec fd)
unfolding network_receive
network_receive-Ends codec fd = bind-Ends Any Any (read_fd fd 2) _ (read_fd-Ends fd 2) (λ got _.
    if-Ends Any (got.0 ==ℤ pos 2) _ (pure none)
      (if-Ends Any (ntohs got.1 == 0) (pure none) (receive_body codec fd (ntohs got.1))
        (pure-Ends {A = Option MessageT} Any none tt) (receive_body-Ends codec fd (ntohs got.1)))
      (pure-Ends {A = Option MessageT} Any none tt))
