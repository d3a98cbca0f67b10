-- ===== src/Networking/Hosts/Update.antt =====
-- What the daemon makes of /etc/hosts over its life (pymesh/networking/hosts.py).
use pymesh.Base.{
  ◌≡◌, refl, ◌∙◌, ap, Bool, true, false, Option, some, List, [], ◌∷◌, ◌++◌, contains, nat_eq, All,
}
use pymesh.Base.Text.{Text, has_part}
use pymesh.Base.Dict.{Dict}
use pymesh.Networking.Hosts.{
  section_start, section_end, newline, host_lines, address_map, section_of, substitute, has_section,
  stripped, updated_content, write, sync_hosts_file, remove_hosts_file,
}
use pymesh.Networking.Hosts.Section.{
  body_of, substitute-section, has_section-section, stripped-quiet,
}

-- `re.sub` takes a replacement without backslashes as it is.
abbrev pub IsPlain : (Text → Option Text) → Type 0
IsPlain expand = (s : Text) → contains b'\\' s ≡ false → expand s ≡ some s

-- what the daemon knows when it writes the file
pub record Known : Type 0 where
  pub records : Dict Text
  pub active_tlds : Option (List Text)
  pub ctrl_host : Option Text

abbrev pub lines_of : Known → List Text
lines_of k = host_lines (address_map k.records k.active_tlds k.ctrl_host)

abbrev pub sync : (Text → Option Text) → Known → Option Text → Option Text × Bool
sync expand k file = sync_hosts_file expand true k.records k.active_tlds k.ctrl_host file

-- the file that `k` makes of a content without a section
abbrev pub appended : Text → Known → Text
appended content k = stripped content ++ newline ∷ newline ∷ section_of (lines_of k)

-- updates one after another
pub sync_all : (Text → Option Text) → List Known → Option Text → Option Text
sync_all expand [] file = file
sync_all expand (k ∷ ks) file = sync_all expand ks (sync expand k file).0

-- No line that is written holds the mark of the end, and what is written has no backslash.
pub record IsClosed (k : Known) : Type 0 where
  pub no_end : has_part section_end (body_of (lines_of k)) ≡ false
  pub no_escape : contains b'\\' (section_of (lines_of k)) ≡ false

updated-append :
    (expand : Text → Option Text) (block content : Text)
    → has_section content ≡ false
    → updated_content expand block content ≡ some (stripped content ++ newline ∷ newline ∷ block)
unfolding updated_content
updated-append expand block content h = rw (h, updated_content) refl

updated-replace :
    (expand : Text → Option Text) (block content : Text)
    → has_section content ≡ true
    → expand block ≡ some block
    → updated_content expand block content ≡ some (substitute block content)
unfolding updated_content
updated-replace expand block content h e = rw (h, updated_content) (rw (e, updated_content) refl)

module _ (expand : Text → Option Text) (plain : IsPlain expand) (content : Text)
    (quiet : has_part section_start content ≡ false) where
  sync-first : (k : Known) → sync expand k (some content) ≡ (some (appended content k), true)
  unfolding sync_hosts_file
  sync-first k =
      ap (write true content)
        (updated-append expand (section_of (lines_of k)) content (rw quiet refl))

  sync-next :
      (k k' : Known)
      → IsClosed k
      → IsClosed k'
      → sync expand k' (some (appended content k)) ≡ (some (appended content k'), true)
  unfolding sync_hosts_file
  sync-next k k' c c' = ap (write true (appended content k)) (
      updated-replace expand (section_of (lines_of k')) (appended content k)
        (has_section-section (stripped content) (lines_of k))
        (plain (section_of (lines_of k')) c'.no_escape)
      ∙ ap some (
          substitute-section (stripped content) (section_of (lines_of k')) (lines_of k)
            (stripped-quiet section_start content quiet) c.no_end))

  sync_all-appended :
      (k k' : Known) (ks : List Known)
      → IsClosed k
      → All IsClosed ks
      → IsClosed k'
      → sync expand k' (sync_all expand ks (some (appended content k)))
        ≡ (some (appended content k'), true)
  unfolding sync_all
  sync_all-appended k k' [] c cs c' = sync-next k k' c c'
  sync_all-appended k k' (q ∷ ks) c (cq, cs) c' =
      rw (sync-next k q c cq) (sync_all-appended q k' ks cq cs c')

  remove-appended :
      (k : Known)
      → IsClosed k
      → remove_hosts_file true (some (appended content k))
        ≡ (some (stripped content ++ newline ∷ newline ∷ []), true)
  unfolding remove_hosts_file
  remove-appended k c = rw (has_section-section (stripped content) (lines_of k)) (
      ap (λ l. (some l, true))
        (substitute-section (stripped content) [] (lines_of k)
          (stripped-quiet section_start content quiet) c.no_end))

  last_update :
      (ks : List Known) (k : Known)
      → All IsClosed ks
      → IsClosed k
      → sync expand k (sync_all expand ks (some content)) ≡ (some (appended content k), true)
  unfolding sync_all
  last_update [] k cs c = sync-first k
  last_update (q ∷ ks) k (cq, cs) c = rw (sync-first q) (sync_all-appended q k ks cq cs c)

  -- However often the file was updated, and with whatever names, one more update leaves what it
  -- alone would make of a file without a section: that content, without the blanks at its end, an
  -- empty line, and the section. Removing the section then leaves the content and the empty line.
  -- No line that is written holds the mark of the end or a backslash, and the file can be written.
  pub sync_hosts_file-last :
      (ks : List Known) (k : Known)
      → All IsClosed ks
      → IsClosed k
      → (sync expand k (sync_all expand ks (some content)) ≡ (some (appended content k), true))
        × (remove_hosts_file true (sync expand k (sync_all expand ks (some content))).0
            ≡ (some (stripped content ++ newline ∷ newline ∷ []), true))
  sync_hosts_file-last ks k cs c =
      let last = last_update ks k cs c in
      (last, ap (λ r. remove_hosts_file true r.0) last ∙ remove-appended k c)
