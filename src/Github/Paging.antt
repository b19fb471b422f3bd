-- ===== src/Github/Paging.antt =====
-- providers/github/codespace.go, listCodespaces: how often it asks.
use codespace_ssh_gateway.Shared.{
  ℕ, zero, suc, ◌+◌, ◌*◌, ◌≤◌, ◌⁺◌, decimal, List, [], ◌++◌, length, inl, inr, arith, Bool-cases,
  ltb,
}
use codespace_ssh_gateway.Providers.Errors.{Result, ok, err}
use codespace_ssh_gateway.Github.Client.{Contact, Http, Net, Answer, perform}
use codespace_ssh_gateway.Github.Requests.{requests, perform-Exhausts}
use codespace_ssh_gateway.Github.Codespaces.{
  Codespace, Codec, request, page_after, pages, list_codespaces,
}

module _ (h : Http) (codec : Codec) where
  page_after_bound :
      (again : List Codespace → Net (Result (List Codespace))) (n k : ℕ) (all : List Codespace)
      (r : Answer (List Codespace) × List Contact)
      → requests r.1 ≤ n + 3
      → ((found : List Codespace) (es : List Contact)
          → requests (again found es).1 ≤ requests es + k)
      → requests (page_after h codec again all r).1 ≤ n + 3 + k
  unfolding page_after
  page_after_bound again n k all ((status, err e), es) le ih = omega (arith, le)
  page_after_bound again n k all ((status, ok page), es) le ih =
      elim (Bool-cases (ltb (length page) 100)) [
        | inl short ↦ rw short (omega (arith, le))
        | inr long ↦ rw long (omega (arith, le, ih (all ++ page) es))
      ]

  pages_bound :
      (left page : ℕ) (all : List Codespace) (es : List Contact)
      → requests (pages h codec left page all es).1 ≤ requests es + 3 * left
  unfolding pages
  pages_bound zero page all es = omega arith
  pages_bound (suc left) page all es =
      let path = "/user/codespaces?per_page=100&page=" ⁺ decimal page in
      let once =
        perform-Exhausts h codec.message_of codec.codespaces_of [] (request "GET" path) es in
      omega (
        arith,
        page_after_bound (pages h codec left (page + 1)) (requests es) (3 * left) all
            (perform h codec.message_of codec.codespaces_of [] (request "GET" path) es) once.bounded
            (pages_bound left (page + 1)),
      )

-- Listing the codespaces sends at most 60 requests, even to an API whose pages never get short.
pub list_codespaces_bound :
    (h : Http) (codec : Codec) (es : List Contact)
    → requests (list_codespaces h codec es).1 ≤ requests es + 60
unfolding list_codespaces
list_codespaces_bound h codec es = omega (arith, pages_bound h codec 20 1 [] es)
