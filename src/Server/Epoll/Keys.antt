-- ===== src/Server/Epoll/Keys.antt =====
-- The map of clients: looking up, changing and erasing an entry.
use mathlib.Core.List.{Perm, Mem, mem-cons_self}
use mathlib.Core.List.Perm
use cpp_network_obj.Base.{
  ◌+◌, ◌≡◌, refl, ap, ap₂, sym, subst, true, false, some, [], ◌∷◌, length, arith, Bool-cases, inl,
  inr, if◌then◌else◌, All,
}
use cpp_network_obj.Buffer.{Socket, invalid_socket, fd}
use cpp_network_obj.Client.{CellClient}
use cpp_network_obj.Server.{Clients, sock_eq}
use cpp_network_obj.Server.Sweep.{sockets}
use cpp_network_obj.Server.Epoll.{find_client, erase, change}

pub sock_eq_sound : (a b : Socket) → sock_eq a b ≡ true → a ≡ b
sock_eq_sound invalid_socket invalid_socket h = refl
sock_eq_sound invalid_socket (fd b) h = cc
sock_eq_sound (fd a) invalid_socket h = cc
sock_eq_sound (fd a) (fd b) h = ground arith

-- What is found at a key is one of the entries.
pub Perm-find :
    (k : Socket) (c : CellClient) (m : Clients)
    → find_client k m ≡ some c
    → Perm (sockets m) (c.sockfd ∷ sockets (erase k m))
Perm-find k c [] e = cc
Perm-find k c ((j, d) ∷ m) e = elim (Bool-cases (sock_eq j k)) [
  | inl h ↦
      let same : d.sockfd ≡ c.sockfd = ground (arith, e, h) in
      rw h (Perm.cons' same (Perm.refl (sockets m)))
  | inr h ↦
      let found : find_client k m ≡ some c = ground (arith, e, h) in
      rw h (
        Perm.trans (Perm.cons d.sockfd (Perm-find k c m found))
          (Perm.swap c.sockfd d.sockfd (sockets (erase k m))))
]

pub length-erase :
    (k : Socket) (c : CellClient) (m : Clients)
    → find_client k m ≡ some c
    → length m ≡ length (erase k m) + 1
length-erase k c [] e = cc
length-erase k c ((j, d) ∷ m) e = ground (arith, length-erase k c m)

pub sockets-change :
    (k : Socket) (c c' : CellClient) (m : Clients)
    → find_client k m ≡ some c
    → c'.sockfd ≡ c.sockfd
    → sockets (change k c' m) ≡ sockets m
sockets-change k c c' [] e same = refl
sockets-change k c c' ((j, d) ∷ m) e same = ground (arith, sockets-change k c c' m)

pub length-change : (k : Socket) (c : CellClient) (m : Clients) → length (change k c m) ≡ length m
length-change k c [] = refl
length-change k c ((j, d) ∷ m) = ground (arith, length-change k c m)

-- What holds of every entry holds of the one that is found.
pub All-find :
    (P : Socket × CellClient → Type 0) (k : Socket) (c : CellClient) (m : Clients)
    → find_client k m ≡ some c
    → All P m
    → P (k, c)
All-find P k c [] e h = cc
All-find P k c ((j, d) ∷ m) e (p, h) = elim (Bool-cases (sock_eq j k)) [
  | inl same ↦
      let found : d ≡ c = ground (arith, e, same) in
      subst P (ap₂ (λ i x. (i, x)) (sock_eq_sound j k same) found) p
  | inr other ↦
      let found : find_client k m ≡ some c = ground (arith, e, other) in All-find P k c m found h
]

pub Mem-find :
    (k : Socket) (c : CellClient) (m : Clients)
    → find_client k m ≡ some c
    → Mem c.sockfd (sockets m)
Mem-find k c m found = (Perm.mem_iff (Perm-find k c m found)).1 mem-cons_self

pub All-erase :
    (P : Socket × CellClient → Type 0) (k : Socket) (m : Clients) → All P m → All P (erase k m)
All-erase P k [] h = tt
All-erase P k ((j, d) ∷ m) (p, h) = elim (Bool-cases (sock_eq j k)) [
  | inl e ↦ rw e h
  | inr e ↦ rw e (p, All-erase P k m h)
]

pub All-change :
    (P : Socket × CellClient → Type 0) (k : Socket) (c : CellClient) (m : Clients)
    → P (k, c)
    → All P m
    → All P (change k c m)
All-change P k c [] q h = tt
All-change P k c ((j, d) ∷ m) q (p, h) = elim (Bool-cases (sock_eq j k)) [
  | inl e ↦ rw e (subst (λ i. P (i, c)) (sym (sock_eq_sound j k e)) q, h)
  | inr e ↦ rw e (p, All-change P k c m q h)
]

-- Another entry stays as it is.
pub find-erase :
    (j k : Socket) (m : Clients) → sock_eq j k ≡ false → find_client k (erase j m) ≡ find_client k m
find-erase j k [] ne = refl
find-erase j k ((i, d) ∷ m) ne = elim (Bool-cases (sock_eq i j)) [
  | inl h ↦
      let apart : sock_eq i k ≡ false =
        subst (λ x. sock_eq x k ≡ false) (sym (sock_eq_sound i j h)) ne in
      rw h (rw apart refl)
  | inr h ↦ rw h (ap (λ o. if sock_eq i k then some d else o) (find-erase j k m ne))
]

pub find-change :
    (j k : Socket) (c : CellClient) (m : Clients)
    → sock_eq j k ≡ false
    → find_client k (change j c m) ≡ find_client k m
find-change j k c [] ne = refl
find-change j k c ((i, d) ∷ m) ne = elim (Bool-cases (sock_eq i j)) [
  | inl h ↦
      let apart : sock_eq i k ≡ false =
        subst (λ x. sock_eq x k ≡ false) (sym (sock_eq_sound i j h)) ne in
      rw h (rw apart refl)
  | inr h ↦ rw h (ap (λ o. if sock_eq i k then some d else o) (find-change j k c m ne))
]
