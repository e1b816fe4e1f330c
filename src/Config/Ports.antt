-- ===== src/Config/Ports.antt =====
-- internal/domain/models.go: PortRange. The map of used ports is the list of the ports that it holds
-- as true, and the ports of a range are natural numbers.
use proxystack_go.Prelude.{
  ℕ, zero, suc, ◌+◌, ◌-◌, ◌≤◌, ◌≡◌, refl, ap, ℕ_eq, Text, codes, ltb, leb, nat_eq, length,
  length-append, if◌then◌else◌, not, contains, contains-add, add, keep, List, [], ◌∷◌, ◌++◌, Option,
  Answer, ok, error, arith,
}
use proxystack_go.Domain.{PortRange}
use proxystack_go.Config.Values.{◌then◌, refuse_if, validate_port}

unfoldable pub validate_range : PortRange → Option Text
validate_range p =
    validate_port p.start (codes "port range start")
    then validate_port p.end (codes "port range end")
    then refuse_if (ltb p.end p.start) (codes "port range start must be less than or equal to end")

abbrev pub not_enough : Text
not_enough = codes "not enough available ports in range"

-- The loop of Allocate at `port`, with `rounds` ports left.
unfoldable pub allocate_from : ℕ → List ℕ → List ℕ → ℕ → ℕ → Answer (List ℕ)
allocate_from count unavailable allocated zero port = error not_enough
allocate_from count unavailable allocated (suc rounds) port =
    let taken = allocated ++ port ∷ [] in
    let skip = allocate_from count unavailable allocated rounds (suc port) in
    let next = allocate_from count (add port unavailable) taken rounds (suc port) in
    if contains unavailable port
    then skip
    else if nat_eq (length taken) count
    then ok taken
    else next

unfoldable pub allocate : PortRange → List ℕ → ℕ → Answer (List ℕ)
allocate p used_ports count = allocate_from count used_ports [] (suc p.end - p.start) p.start

-- The ports of a range, and the first elements of a list.
abbrev pub ports_from : ℕ → ℕ → List ℕ
ports_from zero port = []
ports_from (suc rounds) port = port ∷ ports_from rounds (suc port)

abbrev pub take : ℕ → List ℕ → List ℕ
take zero xs = []
take (suc n) [] = []
take (suc n) (x ∷ xs) = x ∷ take n xs

abbrev pub free_ports : List ℕ → ℕ → ℕ → List ℕ
free_ports used rounds port = keep (λ p. not (contains used p)) (ports_from rounds port)

append-snoc : (xs : List ℕ) (a : ℕ) (ys : List ℕ) → (xs ++ a ∷ []) ++ ys ≡ xs ++ a ∷ ys
append-snoc [] a ys = refl
append-snoc (x ∷ xs) a ys = ap (λ zs. x ∷ zs) (append-snoc xs a ys)

allocate_from-free :
    (used : List ℕ) (count rounds port left : ℕ) (unavailable allocated : List ℕ)
    → count ≡ length allocated + suc left
    → ((p : ℕ) → port ≤ p → contains unavailable p ≡ contains used p)
    → allocate_from count unavailable allocated rounds port ≡ (
        if leb (suc left) (length (free_ports used rounds port))
        then ok (allocated ++ take (suc left) (free_ports used rounds port))
        else error not_enough)
unfolding allocate_from
allocate_from-free used count zero port left unavailable allocated e same = ground arith
allocate_from-free used count (suc rounds) port zero unavailable allocated e same = ground (
  arith,
  same port,
  length-append allocated (port ∷ []),
  allocate_from-free used count rounds (suc port) zero unavailable allocated e
      (λ p le. same p (omega arith)),
)
allocate_from-free used count (suc rounds) port (suc left) unavailable allocated e same = ground (
  arith,
  same port,
  length-append allocated (port ∷ []),
  append-snoc allocated port (take (suc left) (free_ports used rounds (suc port))),
  allocate_from-free used count rounds (suc port) (suc left) unavailable allocated e
      (λ p le. same p (omega arith)),
  allocate_from-free used count rounds (suc port) left (add port unavailable)
      (allocated ++ port ∷ []) (omega (arith, length-append allocated (port ∷ [])))
      (λ p le. ground (arith, contains-add port unavailable p, same p)),
)

-- Allocate of one port or more gives the first `count` ports of the range that are not used, in
-- ascending order, and an error exactly if the range has fewer ports that are not used.
pub allocate-free :
    (p : PortRange) (used : List ℕ) (count : ℕ)
    → 1 ≤ count
    → allocate p used count ≡ (
        if leb count (length (free_ports used (suc p.end - p.start) p.start))
        then ok (take count (free_ports used (suc p.end - p.start) p.start))
        else error not_enough)
unfolding allocate
allocate-free p used zero some_port = absurd (omega arith)
allocate-free p used (suc left) some_port =
    allocate_from-free used (suc left) (suc p.end - p.start) p.start left used [] (omega arith)
      (λ q le. refl)
