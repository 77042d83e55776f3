-- ===== src/TcpServer/Balance.antt =====
-- Which worker a new client is given to.
use cpp_network_obj.Base.{
  ℕ, ◌+◌, ◌≤◌, ◌<◌, ◌≡◌, refl, ap, ap₂, ◌∙◌, ◌⊎◌, inl, inr, some, List, [], ◌∷◌, ◌++◌, All, length,
  ltb, arith, Bool-cases, ltb→lt,
}
use cpp_network_obj.Client.{CellClient}
use cpp_network_obj.Server.{CellServer, add_client, get_client_count}
use cpp_network_obj.TcpServer.{min_index, add_at, add_client_to_servers}

-- A worker of the list has the fewest clients, and is the first such.
pub record Fewest (all : List CellServer) : Type 0 where
  pub before : List CellServer
  pub chosen : CellServer
  pub behind : List CellServer
  pub parts : all ≡ before ++ (chosen ∷ behind)
  pub fewer : All (λ x. get_client_count chosen < get_client_count x) before
  pub least : All (λ x. get_client_count chosen ≤ get_client_count x) behind

-- How the search ends: at the best worker so far, or at one of the rest.
record Better (count i : ℕ) (rest : List CellServer) (found : ℕ) : Type 0 where
  place : Fewest rest
  beats : get_client_count place.chosen < count
  index : found ≡ i + length place.before

abbrev Search : ℕ → ℕ → ℕ → List CellServer → ℕ → Type 0
Search best count i rest found =
    ((found ≡ best) × All (λ x. count ≤ get_client_count x) rest) ⊎ Better count i rest found

taken :
    (best count i found : ℕ) (srv : CellServer) (rest : List CellServer)
    → get_client_count srv < count
    → Search i (get_client_count srv) (i + 1) rest found
    → Search best count i (srv ∷ rest) found
taken best count i found srv rest h (inl (e, all)) = inr (record {
  place = record {
    before = [];
    chosen = srv;
    behind = rest;
    parts = refl;
    fewer = tt;
    least = all;
  };
  beats = h;
  index = omega arith;
})
taken best count i found srv rest h (inr b) = inr (record {
  place = record {
    before = srv ∷ b.place.before;
    chosen = b.place.chosen;
    behind = b.place.behind;
    parts = ap (◌∷◌ srv) b.place.parts;
    fewer = (b.beats, b.place.fewer);
    least = b.place.least;
  };
  beats = omega (arith, b.beats);
  index = omega (arith, b.index);
})

passed :
    (best count i found : ℕ) (srv : CellServer) (rest : List CellServer)
    → count ≤ get_client_count srv
    → Search best count (i + 1) rest found
    → Search best count i (srv ∷ rest) found
passed best count i found srv rest h (inl (e, all)) = inl (e, (h, all))
passed best count i found srv rest h (inr b) = inr (record {
  place = record {
    before = srv ∷ b.place.before;
    chosen = b.place.chosen;
    behind = b.place.behind;
    parts = ap (◌∷◌ srv) b.place.parts;
    fewer = (omega (arith, b.beats), b.place.fewer);
    least = b.place.least;
  };
  beats = b.beats;
  index = omega (arith, b.index);
})

min_index-Search :
    (best count i : ℕ) (rest : List CellServer)
    → Search best count i rest (min_index best count i rest)
unfolding min_index
min_index-Search best count i [] = inl (refl, tt)
min_index-Search best count i (srv ∷ rest) =
    let n = get_client_count srv in
    elim (Bool-cases (ltb n count)) [
      | inl e ↦
          rw e
            (taken best count i _ srv rest (ltb→lt n count e) (min_index-Search i n (i + 1) rest))
      | inr e ↦
          rw e (
            passed best count i _ srv rest (ground arith)
              (min_index-Search best count (i + 1) rest))
    ]

add_at-append :
    (c : CellClient) (before : List CellServer) (srv : CellServer) (behind : List CellServer)
    → add_at (length before) c (before ++ (srv ∷ behind)) ≡ before ++ (add_client srv c ∷ behind)
unfolding add_at
add_at-append c [] srv behind = refl
add_at-append c (x ∷ before) srv behind = ap (◌∷◌ x) (add_at-append c before srv behind)

-- The worker that a search which starts at the first of the list ends at.
least_index :
    (srv : CellServer) (rest : List CellServer)
    → (f : Fewest (srv ∷ rest)) × (min_index 0 (get_client_count srv) 0 (srv ∷ rest)
        ≡ length f.before)
least_index srv rest = go (min_index-Search 0 (get_client_count srv) 0 (srv ∷ rest))
  where
    go :
        Search 0
          (get_client_count srv)
          0
          (srv ∷ rest)
          (min_index 0 (get_client_count srv) 0 (srv ∷ rest))
        → (f : Fewest (srv ∷ rest)) × (min_index 0 (get_client_count srv) 0 (srv ∷ rest)
            ≡ length f.before)
    go (inl (e, (h, all))) = (
      record { before = []; chosen = srv; behind = rest; parts = refl; fewer = tt; least = all },
      e,
    )
    go (inr b) = (b.place, b.index ∙ omega arith)

-- Where there is a worker, addClientToCELLServer gives the client to the first of those that have
-- the fewest clients, serving and waiting, and leaves the others as they are.
pub add_client_to_servers_lem :
    (c : CellClient) (srv : CellServer) (rest : List CellServer)
    → (f : Fewest (srv ∷ rest)) × (add_client_to_servers c (srv ∷ rest)
        ≡ some (f.before ++ (add_client f.chosen c ∷ f.behind)))
unfolding add_client_to_servers
add_client_to_servers_lem c srv rest =
    let (f, e) = least_index srv rest in
    (f, ap some (ap₂ (λ i l. add_at i c l) e f.parts ∙ add_at-append c f.before f.chosen f.behind))
