-- ===== src/Samples/Worker.antt =====
-- Samples for the texts of internal/session/worker.go.
use memknow.Common.{◌≡◌, false, Text, codes}
use memknow.Worker.Attachments.{image_prefix}
use memknow.Worker.Strip.{strip-clean, has_marker}
use memknow.Worker.Attachments.{strip}

strip-clean_example : has_marker (strip (codes "a[图片: /x][图片: b") image_prefix) image_prefix ≡ false
strip-clean_example = strip-clean (codes "a[图片: /x][图片: b") image_prefix

abbrev thirteen : Text
thirteen = codes "一二三四五六七八九十一二三"
