-- ===== src/Resolvconf/Lines.antt =====
-- What is written to /etc/resolv.conf.
use psa_dhcp.Base.{
  ℕ, ◌≡◌, ◌≢◌, refl, sym, ◌∙◌, true, false, Bool, ◌&&◌, ◌||◌, not, ◌==◌, List, [], ◌∷◌, ◌++◌, All,
  All-append, Bool-cases, Option-cases, Option, none, some, inl, inr, ◌⊎◌, length, bytes_eq,
  if◌then◌else◌, ==_iff,
}
use psa_dhcp.Base.Text.{split}
use psa_dhcp.Net.{is_nil}
use psa_dhcp.Resolvconf.{
  matches, is_name_char, is_num_char, split_env, good_servers, Found, domain_key, dns_key,
  note_pair, note_entry, note_all, contents, nothing_found, run_environ, Answers, FileCall,
  write_temp, close_temp, chmod_temp, rename_temp, remove_temp, UpdateError, no_temp, write_failed,
  close_failed, short_write, chmod_failed, rename_failed, update,
}

abbrev pub IsServer : List ℕ → Type 0
IsServer ns = matches is_num_char ns ≡ true

-- A search domain of letters, digits, dots and dashes, or none, and name servers of digits and
-- dots.
pub record IsClean (f : Found) : Type 0 where
  pub domain : (f.search_domain ≡ []) ⊎ (matches is_name_char f.search_domain ≡ true)
  pub servers : All IsServer f.nameservers

pub good_servers-IsServer : (nss : List (List ℕ)) → All IsServer (good_servers nss)
unfolding good_servers
good_servers-IsServer [] = tt
good_servers-IsServer (ns ∷ nss) = elim (Bool-cases (matches is_num_char ns)) [
  | inl e ↦ rw (e, good_servers) (e, good_servers-IsServer nss)
  | inr e ↦ rw (e, good_servers) (good_servers-IsServer nss)
]

note_pair-IsClean : (key val : List ℕ) (f : Found) → IsClean f → IsClean (note_pair key val f)
unfolding note_pair
note_pair-IsClean key val f w = record {
  domain = kept (bytes_eq key domain_key) (matches is_name_char val) refl;
  servers = more (bytes_eq key dns_key && not (is_nil val));
}
  where
    kept :
        (a b : Bool)
        → matches is_name_char val ≡ b
        → ((if a && b then val else f.search_domain) ≡ [])
          ⊎ (matches is_name_char (if a && b then val else f.search_domain) ≡ true)
    kept true true e = inr e
    kept true false e = w.domain
    kept false b e = w.domain

    more :
        (b : Bool)
        → All IsServer (if b then f.nameservers ++ good_servers (split b',' val) else f.nameservers)
    more true =
        All-append IsServer f.nameservers (good_servers (split b',' val)) w.servers
          (good_servers-IsServer (split b',' val))
    more false = w.servers

note_entry-IsClean : (e : List ℕ) (f : Found) → IsClean f → IsClean (note_entry e f)
unfolding note_entry
note_entry-IsClean e f w = elim (Option-cases (split_env e)) [
  | inl h ↦ rw (h, note_entry) w
  | inr ((k, v), h) ↦ rw (h, note_entry) (note_pair-IsClean k v f w)
]

note_all-IsClean : (es : List (List ℕ)) (f : Found) → IsClean f → IsClean (note_all es f)
unfolding note_all
note_all-IsClean [] f w = w
note_all-IsClean (e ∷ es) f w = note_all-IsClean es (note_entry e f) (note_entry-IsClean e f w)

-- Whatever the environment holds, what is written is the header, at most one search line whose
-- domain is made of letters, digits, dots and dashes, and one or more lines of name servers made of
-- digits and dots.
pub run_environ-IsClean :
    (environ : List (List ℕ)) {buf : List ℕ}
    → run_environ environ ≡ some buf
    → (f : Found) × (buf ≡ contents f) × IsClean f × (f.nameservers ≢ [])
unfolding run_environ
run_environ-IsClean environ {buf} h = go (note_all environ nothing_found).nameservers refl
  where
    f : Found
    f = note_all environ nothing_found

    clean : IsClean f
    clean = note_all-IsClean environ nothing_found (record { domain = inl refl; servers = tt })

    some_buf : {a b : List ℕ} → some a ≡ some b → b ≡ a
    some_buf h = cc

    go :
        (nss : List (List ℕ))
        → f.nameservers ≡ nss
        → (f : Found) × (buf ≡ contents f) × IsClean f × (f.nameservers ≢ [])
    go [] e = cc (rw (run_environ, e) at h)
    go (ns ∷ nss) e = (f, some_buf (rw (run_environ, e) at h), clean, λ nil. not_nil (sym e ∙ nil))
      where
        not_nil : (ns ∷ nss) ≡ [] → ⊥
        not_nil h = cc

-- The first of the system's answers that is an error, each after those before it were none.
pub data Failed (a : Answers) (buf : List ℕ) : UpdateError → Type 0 where
  in_write : a.write_ok ≡ false → Failed a buf write_failed
  in_close : a.write_ok ≡ true → a.close_ok ≡ false → Failed a buf close_failed
  in_length :
      a.write_ok ≡ true → a.close_ok ≡ true → a.written ≢ length buf → Failed a buf short_write
  in_chmod :
      a.write_ok ≡ true
      → a.close_ok ≡ true
      → a.written ≡ length buf
      → a.chmod_ok ≡ false
      → Failed a buf chmod_failed
  in_rename :
      a.write_ok ≡ true
      → a.close_ok ≡ true
      → a.written ≡ length buf
      → a.chmod_ok ≡ true
      → a.rename_ok ≡ false
      → Failed a buf rename_failed

-- All of the text was written, and the system reported no error.
pub record Succeeded (a : Answers) (buf : List ℕ) : Type 0 where
  pub write : a.write_ok ≡ true
  pub close : a.close_ok ≡ true
  pub whole : a.written ≡ length buf
  pub chmod : a.chmod_ok ≡ true
  pub rename : a.rename_ok ≡ true

-- Whether one of the calls puts a file in the place of /etc/resolv.conf.
abbrev pub replaces : Answers → List FileCall → Bool
replaces a [] = false
replaces a (rename_temp name ∷ calls) = a.rename_ok || replaces a calls
replaces a (write_temp name buf ∷ calls) = replaces a calls
replaces a (close_temp name ∷ calls) = replaces a calls
replaces a (chmod_temp name ∷ calls) = replaces a calls
replaces a (remove_temp name ∷ calls) = replaces a calls

-- How an update ends: no temporary file was made; or it was, an answer was an error, and it is
-- removed; or no answer was an error, and it took the place of the file.
pub data Ends (a : Answers) (buf : List ℕ) : Option UpdateError × List FileCall → Type 0 where
  unopened : a.temp_name ≡ none → Ends a buf (some no_temp, [])
  undone :
      {e : UpdateError} (name : List ℕ) (calls : List FileCall)
      → a.temp_name ≡ some name
      → Failed a buf e
      → replaces a calls ≡ false
      → Ends a buf (some e, calls ++ (remove_temp name ∷ []))
  replaced :
      (name : List ℕ)
      → a.temp_name ≡ some name
      → Succeeded a buf
      → Ends a buf
          (none, write_temp name buf ∷ close_temp name ∷ chmod_temp name ∷ rename_temp name ∷ [])

-- An update makes no temporary file, and reports that; or some answer of the system is an error or
-- not all was written, and it reports the first such failure, does not replace /etc/resolv.conf and
-- removes the temporary file as its last call; or no answer is an error, it writes the whole text,
-- sets the mode and renames the file, and reports none.
pub update-Ends : (a : Answers) (buf : List ℕ) → Ends a buf (update a buf)
unfolding update
update-Ends a buf =
    go a.temp_name a.write_ok a.close_ok a.chmod_ok a.rename_ok
      (Bool-cases (a.written == length buf))
  where
    answers : Option (List ℕ) → Bool → Bool → Bool → Bool → Answers
    answers t w c m r = record {
      temp_name = t;
      written = a.written;
      write_ok = w;
      close_ok = c;
      chmod_ok = m;
      rename_ok = r;
    }

    opened : List ℕ → List FileCall
    opened name = write_temp name buf ∷ close_temp name ∷ []

    whole : (a.written == length buf) ≡ true → a.written ≡ length buf
    whole e = (==_iff a.written (length buf)).0 e

    go :
        (t : Option (List ℕ)) (w c m r : Bool)
        → ((a.written == length buf) ≡ true) ⊎ ((a.written == length buf) ≡ false)
        → Ends (answers t w c m r) buf (update (answers t w c m r) buf)
    go none w c m r l = unopened refl
    go (some name) false c m r l = undone name (opened name) refl (in_write refl) refl
    go (some name) true false m r l = undone name (opened name) refl (in_close refl refl) refl
    go (some name) true true m r (inr e) =
        rw (update, e)
          (undone name (opened name) refl
            (in_length refl refl (λ h. cc ((==_iff a.written (length buf)).1 h, e))) refl)
    go (some name) true true false r (inl e) =
        rw (update, e)
          (undone name (opened name ++ (chmod_temp name ∷ [])) refl
            (in_chmod refl refl (whole e) refl) refl)
    go (some name) true true true false (inl e) =
        rw (update, e)
          (undone name (opened name ++ (chmod_temp name ∷ rename_temp name ∷ [])) refl
            (in_rename refl refl (whole e) refl refl) refl)
    go (some name) true true true true (inl e) =
        rw (update, e)
          (replaced name refl
            (record { write = refl; close = refl; whole = whole e; chmod = refl; rename = refl }))
