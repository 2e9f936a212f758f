-- ===== src/Receiver/Dedup/Snapshot.antt =====
-- `DedupWindow.snapshot` and `restore`. base64 is a parameter; the text of the JSON document and its
-- `spool_position` field are not part of this module.
use ot_security.Common.{ℕ, ◌≡◌, ap, sym, ◌∙◌, none, List, [], ◌∷◌, ◌++◌, append-nil, append_assoc}
use ot_security.Common.Int.{ℤ}
use ot_security.Common.Bytes.{Bytes}
use ot_security.Common.Dict.{
  Dict, Text, text_eq, lookup, insert, insert_new, absent_before, NodupKeys,
}
use ot_security.Receiver.Dedup.{Stream, DedupWindow}
use ot_security.Receiver.Dedup.Window.{IsWindow}

-- One element of the list under "streams".
pub record StreamDoc : Type 0 where
  pub key : Text
  pub base : ℤ
  pub highest : ℤ
  pub missing : ℤ
  pub bits : Text

pub record Document : Type 0 where
  pub gaps_total : ℤ
  pub duplicates_total : ℕ
  pub reordered_total : ℕ
  pub stale_total : ℕ
  pub streams : List StreamDoc

module _ (b64encode : Bytes → Text) (b64decode : Text → Bytes) where
  unfoldable pub to_doc : Text → Stream → StreamDoc
  to_doc k s = record {
    key = k;
    base = s.base;
    highest = s.highest;
    missing = s.missing;
    bits = b64encode s.bits;
  }

  unfoldable pub of_doc : StreamDoc → Stream
  of_doc x = record {
    base = x.base;
    highest = x.highest;
    missing = x.missing;
    bits = b64decode x.bits;
  }

  unfoldable pub stream_docs : Dict Text Stream → List StreamDoc
  stream_docs [] = []
  stream_docs ((k, s) ∷ d) = to_doc k s ∷ stream_docs d

  unfoldable pub snapshot : DedupWindow → Document
  unfolding stream_docs
  snapshot w = record {
    gaps_total = w.totals.gaps;
    duplicates_total = w.totals.duplicates;
    reordered_total = w.totals.reorders;
    stale_total = w.totals.stales;
    streams = stream_docs w.streams;
  }

  -- The loop of `restore`; a key that comes twice keeps its place and takes the later stream.
  unfoldable pub restore_streams : Dict Text Stream → List StreamDoc → Dict Text Stream
  restore_streams d [] = d
  restore_streams d (x ∷ docs) = restore_streams (insert x.key (of_doc x) d) docs

  unfoldable pub restore : Document → DedupWindow
  unfolding restore_streams
  restore doc = record {
    streams = restore_streams [] doc.streams;
    totals = record {
      gaps = doc.gaps_total;
      duplicates = doc.duplicates_total;
      reorders = doc.reordered_total;
      stales = doc.stale_total;
    };
  }

  of_doc-to_doc :
      ((b : Bytes) → b64decode (b64encode b) ≡ b)
      → (k : Text) (s : Stream) → of_doc (to_doc k s) ≡ s
  unfolding of_doc to_doc
  of_doc-to_doc inv k s = ap (λ (b : Bytes). record s { bits = b }) (inv s.bits)

  insert_doc :
      ((b : Bytes) → b64decode (b64encode b) ≡ b)
      → (d : Dict Text Stream) (k : Text) (s : Stream) → lookup k d ≡ none
      → insert (to_doc k s).key (of_doc (to_doc k s)) d ≡ d ++ ((k, s) ∷ [])
  unfolding to_doc
  insert_doc inv d k s h = ap (λ x. insert k x d) (of_doc-to_doc inv k s) ∙ insert_new k s d h

  restore_streams-stream_docs :
      ((b : Bytes) → b64decode (b64encode b) ≡ b)
      → (d rest : Dict Text Stream) → NodupKeys (d ++ rest)
      → restore_streams d (stream_docs rest) ≡ d ++ rest
  unfolding restore_streams stream_docs
  restore_streams-stream_docs inv d [] n = sym (append-nil d)
  restore_streams-stream_docs inv d ((k, s) ∷ rest) n =
      rw (restore_streams, insert_doc inv d k s (absent_before d k s rest n))
        (restore_streams-stream_docs inv (d ++ ((k, s) ∷ [])) rest (rw append_assoc n)
          ∙ append_assoc d ((k, s) ∷ []) rest)

  -- What is restored from a snapshot of a window with distinct keys is the window that was saved, where
  -- base64 decodes what it encodes.
  pub restore-snapshot :
      ((b : Bytes) → b64decode (b64encode b) ≡ b)
      → (w : DedupWindow) → IsWindow w
      → restore (snapshot w) ≡ w
  unfolding restore snapshot
  restore-snapshot inv w v = rw (restore_streams-stream_docs inv [] w.streams v.distinct)
