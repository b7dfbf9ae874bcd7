-- ===== src/Policy/Analysis/Ixp.antt =====
-- The check of routes over an exchange point.
use mini_internet_extention.Prelude.{
  not, none, some, List, [], ◌∷◌, ◌++◌, if◌then◌else◌, ◌==◌, Eq_nat, Eq_text, Text, codes, int,
  isdigit, is_empty, split, starts_with, get_elem?, Result, ok, err, ◌>>=◌, filter, elem,
}
use mini_internet_extention.Policy.Config.{Error, assertion_error, index_error, Config}
use mini_internet_extention.Policy.Relations.{recursive_customers, recursive_providers}
use mini_internet_extention.Policy.AsPath.{space}
use mini_internet_extention.Policy.LookingGlass.{Row}
use mini_internet_extention.Policy.Log.{
  error, as_path, simple, Entry, log, log_nr, nexthop_mismatch, leaks_to_customer,
  leaks_to_provider, ixp_peer_route,
}
use mini_internet_extention.Policy.Analysis.Route.{first_label}

-- WHERE peer LIKE '180%'
unfoldable pub ixp_routes : List Row → List Row
ixp_routes rows = filter (λ r. starts_with r.peer (codes "180")) rows

abbrev octet : List Text → Result Error Text
octet words = elim (get_elem? words 3) [ none ↦ err index_error | some w ↦ ok w ]

pub check_ixp : Config → Row → Result Error (List Entry)
check_ixp c r =
    let nextas = first_label space r.path in
    if not (isdigit nextas)
    then err assertion_error
    else if is_empty r.nexthop
    then err assertion_error
    else do
      last ← octet (split b'.' r.nexthop)
      above ← recursive_providers c r.asnumber
      below ← recursive_customers c r.asnumber
      ok (
          (if last == nextas
            then []
            else log as_path (nexthop_mismatch r.asnumber r.prefix r.path r.nexthop) ∷ [])
          ++ (if elem (int nextas) above
              then log_nr (simple error) (int nextas) (leaks_to_customer r.prefix)
                ∷ log error (ixp_peer_route r.asnumber r.prefix nextas)
                ∷ []
              else [])
          ++ (if elem (int nextas) below
              then log_nr (simple error) (int nextas) (leaks_to_provider r.prefix)
                ∷ log error (ixp_peer_route r.asnumber r.prefix nextas)
                ∷ []
              else []))
