-- ===== src/Ipcd/Broker/Table.antt =====
-- The broker's connections as a map from descriptors.
use mathlib.Core.Option.{some-injective}
use nf_nms.Common.{
  subst, ℕ, List, [], ◌∷◌, ◌≡◌, ◌≢◌, refl, Option, none, some, Bool, true, false, arith,
  if◌then◌else◌, ◌==◌, if_cases,
}
use nf_nms.Ipc.Connection.{IpcConnection}
use nf_nms.Ipc.Connection.Stream.{IsReady}
use nf_nms.Ipcd.Broker.{Broker, find_connection, put_connection, erase, answer, epoll_ctl}

-- Whether a descriptor is open.
abbrev pub has : List IpcConnection → ℕ → Bool
has [] fd = false
has (c ∷ cs) fd = if c.fd == fd then true else has cs fd

abbrev pub AllReady : List IpcConnection → Type 0
AllReady [] = Unit {0}
AllReady (c ∷ cs) = IsReady c × AllReady cs

pub find_connection-has :
    (cs : List IpcConnection) (fd : ℕ) (c : IpcConnection)
    → find_connection cs fd ≡ some c
    → has cs fd ≡ true
unfolding find_connection
find_connection-has [] fd c h = absurd (cc)
find_connection-has (d ∷ cs) fd c h = ground (arith, find_connection-has cs fd c)

pub find_connection-fd :
    (cs : List IpcConnection) (fd : ℕ) (c : IpcConnection)
    → find_connection cs fd ≡ some c
    → c.fd ≡ fd
unfolding find_connection
find_connection-fd [] fd c h = absurd (cc)
find_connection-fd (d ∷ cs) fd c h = ground (arith, find_connection-fd cs fd c)

pub find_connection-IsReady :
    (cs : List IpcConnection) (fd : ℕ) {c : IpcConnection}
    → AllReady cs
    → find_connection cs fd ≡ some c
    → IsReady c
unfolding find_connection
find_connection-IsReady [] fd all h = absurd (cc)
find_connection-IsReady (d ∷ cs) fd {c} all h =
    if_cases (λ (o : Option IpcConnection). (o ≡ some c) → IsReady c) (d.fd == fd)
      (λ _ e. subst IsReady (some-injective d c e) all.0)
      (λ _ e. find_connection-IsReady cs fd all.1 e) h

pub has-put_connection :
    (cs : List IpcConnection) (c : IpcConnection) (k : ℕ) → has (put_connection cs c) k ≡ has cs k
unfolding put_connection
has-put_connection [] c k = refl
has-put_connection (d ∷ cs) c k = ground (arith, has-put_connection cs c k)

pub put_connection-AllReady :
    (cs : List IpcConnection) {c : IpcConnection}
    → AllReady cs
    → IsReady c
    → AllReady (put_connection cs c)
unfolding put_connection
put_connection-AllReady [] all r = all
put_connection-AllReady (d ∷ cs) {c} all r =
    if_cases AllReady (d.fd == c.fd) (λ _. (r, all.1))
      (λ _. (all.0, put_connection-AllReady cs all.1 r))

pub find_connection-put_connection :
    (cs : List IpcConnection) (c : IpcConnection) (k : ℕ)
    → find_connection (put_connection cs c) k
      ≡ (if c.fd == k then (if has cs k then some c else none) else find_connection cs k)
unfolding find_connection put_connection
find_connection-put_connection [] c k = ground arith
find_connection-put_connection (d ∷ cs) c k = ground (arith, find_connection-put_connection cs c k)

pub has-erase : (cs : List IpcConnection) (fd k : ℕ) → k ≢ fd → has (erase cs fd) k ≡ has cs k
unfolding erase
has-erase [] fd k n = refl
has-erase (c ∷ cs) fd k n = ground (arith, has-erase cs fd k)

pub erase-AllReady : (cs : List IpcConnection) (fd : ℕ) → AllReady cs → AllReady (erase cs fd)
unfolding erase
erase-AllReady [] fd all = all
erase-AllReady (c ∷ cs) fd all =
    if_cases AllReady (c.fd == fd) (λ _. all.1) (λ _. (all.0, erase-AllReady cs fd all.1))

answer-connections : (b : Broker) (es : List Bool) → (answer b es).1.connections ≡ b.connections
unfolding answer
answer-connections b [] = refl
answer-connections b (x ∷ es) = refl

pub epoll_ctl-connections : (b : Broker) → (epoll_ctl b).1.connections ≡ b.connections
unfolding epoll_ctl
epoll_ctl-connections b = answer-connections b b.epoll

pub find_connection-erase :
    (cs : List IpcConnection) (fd k : ℕ)
    → k ≢ fd
    → find_connection (erase cs fd) k ≡ find_connection cs k
unfolding find_connection erase
find_connection-erase [] fd k n = refl
find_connection-erase (c ∷ cs) fd k n = ground (arith, find_connection-erase cs fd k)
