-- ===== src/Cache/Paths.antt =====
-- Clean of Go's path/filepath on Unix, by the elements of a path.
use pomar.Prelude.{ℕ, Bool, true, false, List, [], ◌∷◌, ◌++◌, ◌==◌, if◌then◌else◌}
use pomar.Terminal.Text.{split_on, text_eq}

abbrev pub slash : ℕ
slash = 0x2f

abbrev here : List ℕ
here = 0x2e ∷ []

abbrev up : List ℕ
up = 0x2e ∷ 0x2e ∷ []

-- An element `..` takes back the one before it. At the start it stays, but for a rooted path.
unfoldable pub go_up : Bool → List (List ℕ) → List (List ℕ)
go_up true [] = []
go_up false [] = up ∷ []
go_up rooted (e ∷ done) = if text_eq e up then up ∷ e ∷ done else done

-- The elements that stay, the last one first.
unfoldable pub resolve : Bool → List (List ℕ) → List (List ℕ) → List (List ℕ)
resolve rooted done [] = done
resolve rooted done ([] ∷ rest) = resolve rooted done rest
resolve rooted done ((c ∷ e) ∷ rest) =
    resolve rooted
      (if text_eq (c ∷ e) here
        then done
        else if text_eq (c ∷ e) up
        then go_up rooted done
        else (c ∷ e) ∷ done)
      rest

-- Joined by slashes; the elements come with the last one first.
unfoldable pub join_back : List (List ℕ) → List ℕ → List ℕ
join_back [] text = text
join_back (e ∷ done) [] = join_back done e
join_back (e ∷ done) (c ∷ text) = join_back done (e ++ (slash ∷ c ∷ text))

unfoldable pub is_rooted : List ℕ → Bool
is_rooted [] = false
is_rooted (c ∷ path) = c == slash

unfoldable pub or_here : List ℕ → List ℕ
or_here [] = here
or_here (c ∷ path) = c ∷ path

unfoldable pub clean : List ℕ → List ℕ
clean path =
    let text = join_back (resolve (is_rooted path) [] (split_on slash path)) [] in
    if is_rooted path then slash ∷ text else or_here text
