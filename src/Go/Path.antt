-- ===== src/Go/Path.antt =====
-- What the program uses of `path/filepath` on Unix: `Clean`, `Join` of two elements, and `Dir`.
use lanmon.Prelude.{
  ℕ, ◌≡◌, refl, Bool, true, false, ◌||◌, List, [], ◌∷◌, ◌++◌, ◌==◌, if◌then◌else◌, Text, text_eq,
}

-- The elements between slashes: one more than there are slashes.
unfoldable pub segments : Text → List Text
segments [] = [] ∷ []
segments (c ∷ s) = front c (segments s)
  where
    front : ℕ → List Text → List Text
    front c [] = []
    front c (p ∷ ps) = if c == b'/' then [] ∷ p ∷ ps else (c ∷ p) ∷ ps

abbrev pub dot : Text
dot = b'.' ∷ []

abbrev pub dot_dot : Text
dot_dot = b'.' ∷ b'.' ∷ []

-- One more element behind those that are kept, the last of which comes first.
unfoldable pub push_segment : Bool → Text → List Text → List Text
push_segment rooted p kept =
    if text_eq p [] || text_eq p dot
    then kept
    else if text_eq p dot_dot
    then back kept
    else p ∷ kept
  where
    back : List Text → List Text
    back [] = if rooted then [] else dot_dot ∷ []
    back (q ∷ rest) = if text_eq q dot_dot then dot_dot ∷ q ∷ rest else rest

unfoldable pub push_segments : Bool → List Text → List Text → List Text
unfolding push_segment
push_segments rooted [] kept = kept
push_segments rooted (p ∷ ps) kept = push_segments rooted ps (push_segment rooted p kept)

-- The kept elements in their order, with a slash between them.
unfoldable pub join_slashes : List Text → Text → Text
join_slashes [] s = s
join_slashes (p ∷ ps) [] = join_slashes ps p
join_slashes (p ∷ ps) (c ∷ s) = join_slashes ps (p ++ (b'/' ∷ c ∷ s))

abbrev pub or_dot : Text → Text
or_dot [] = dot
or_dot (c ∷ s) = c ∷ s

unfoldable pub clean : Text → Text
unfolding segments push_segments join_slashes
clean [] = dot
clean (c ∷ s) =
    if c == b'/'
    then b'/' ∷ join_slashes (push_segments true (segments s) []) []
    else or_dot (join_slashes (push_segments false (segments (c ∷ s)) []) [])

-- `filepath.Join(a, b)`
unfoldable pub join : Text → Text → Text
unfolding clean
join [] [] = []
join [] (c ∷ b) = clean (c ∷ b)
join (c ∷ a) b = clean (c ∷ a ++ (b'/' ∷ b))

-- The part up to the last slash, that slash included.
unfoldable pub dir_part : Text → Text
dir_part [] = []
dir_part (c ∷ s) = here c (dir_part s)
  where
    here : ℕ → Text → Text
    here c [] = if c == b'/' then c ∷ [] else []
    here c (d ∷ r) = c ∷ d ∷ r

-- `filepath.Dir`
unfoldable pub dir : Text → Text
unfolding clean dir_part
dir s = clean (dir_part s)

pub join-rooted : (a b : Text) → (c : Text) × (join (b'/' ∷ a) b ≡ b'/' ∷ c)
unfolding join clean
join-rooted a b = (join_slashes (push_segments true (segments (a ++ (b'/' ∷ b))) []) [], refl)
