-- ===== src/Ctype/Classes.antt =====
-- What the table of lib/string.c says of each byte.
use xlinux.Common.{
  ℕ, ◌+◌, ◌<◌, ◌≡◌, Bool, true, false, not, ◌&&◌, ◌||◌, ◌==◌, leb, if◌then◌else◌, arith, refl,
}
use xlinux.Common.Table.{passes, passes_entry}
use xlinux.Ctype.{isspace, isupper, isxdigit, tolower}

-- Equality of Booleans, as a test.
abbrev same : Bool → Bool → Bool
same true b = b
same false b = not b

same-eq : (a b : Bool) → same a b ≡ true → a ≡ b
same-eq a b h = ground arith

-- Tab, line feed, vertical tab, form feed, return, space and the no-break space of Latin-1.
abbrev pub space_spec : ℕ → Bool
space_spec c = leb 9 c && leb c 13 || c == 32 || c == 160

abbrev pub xdigit_spec : ℕ → Bool
xdigit_spec c = leb b'0' c && leb c b'9' || leb b'a' c && leb c b'f' || leb b'A' c && leb c b'F'

-- `A` to `Z`, and the capitals of Latin-1 but the multiplication sign.
abbrev pub upper_spec : ℕ → Bool
upper_spec c = leb b'A' c && leb c b'Z' || leb 192 c && leb c 222 && not (c == 215)

space_table : passes (λ c. same (isspace c) (space_spec c)) 256 ≡ true
unfolding passes isspace
space_table = refl

xdigit_table : passes (λ c. same (isxdigit c) (xdigit_spec c)) 256 ≡ true
unfolding passes isxdigit
xdigit_table = refl

upper_table : passes (λ c. same (isupper c) (upper_spec c)) 256 ≡ true
unfolding passes isupper
upper_table = refl

by_table :
    (f g : ℕ → Bool) (c : ℕ) → passes (λ x. same (f x) (g x)) 256 ≡ true → c < 256 → f c ≡ g c
by_table f g c table h = same-eq (f c) (g c) (passes_entry (λ x. same (f x) (g x)) 256 c h table)

-- For every byte, `isspace`, `isxdigit` and `isupper` are the classes of Latin-1: white space with
-- the no-break space, the hexadecimal digits, and the capital letters.
pub ctype_classes :
    (c : ℕ)
    → c < 256
    → (isspace c ≡ space_spec c) × (isxdigit c ≡ xdigit_spec c) × (isupper c ≡ upper_spec c)
ctype_classes c h = (
  by_table isspace (λ x. space_spec x) c space_table h,
  by_table isxdigit (λ x. xdigit_spec x) c xdigit_table h,
  by_table isupper (λ x. upper_spec x) c upper_table h,
)

-- For every byte, `tolower` maps a capital letter to the letter 32 places on and any other byte to
-- itself, and what it returns is a byte that is no capital.
pub tolower_lem :
    (c : ℕ)
    → c < 256
    → (tolower c ≡ (if upper_spec c then c + 32 else c))
      × (tolower c < 256)
      × (upper_spec (tolower c) ≡ false)
unfolding tolower
tolower_lem c h = rw (ctype_classes c h).2 (ground arith)
